-- ===== src/AgentService/Rules.antt =====
-- What `HasRule` reads from the list of rules that the `ip` command prints.
use keenetic_dns.Prelude.{
  ℕ, ◌≡◌, refl, sym, ap, ◌∙◌, none, true, false, List, [], ◌∷◌, ◌++◌, map, any, All, All-append,
  ◌==◌, Bytes, bytes_eq, ◌=?◌, append_assoc,
}
use keenetic_dns.Text.{split, trim_space, trim_front, is_space, is_empty}
use keenetic_dns.Text.Fields.{
  Free, Solid, Solid-Free, split-Free, split-append, trim_space_kept, trim_space-front,
  is_empty-append,
}
use keenetic_dns.Config.{RoutingRule}
use keenetic_dns.AgentService.{
  Output, replied, parse_output_lines, rule_text, is_rule_line, run_cmd, result_of, has_rule,
  ip_arg, rule_arg, list_arg,
}

-- A rule as the list shows it: its priority, and its text as the first byte, the bytes between and
-- the last one.
pub record Shown : Type 0 where
  pub priority : Bytes
  pub first : ℕ
  pub between : Bytes
  pub last : ℕ

abbrev pub text_of : Shown → Bytes
text_of r = r.first ∷ r.between ++ r.last ∷ []

-- The priority is a word, the text has no white space at its ends and is of one line; neither has a
-- colon.
pub record IsShown (r : Shown) : Type 0 where
  pub priority_in : Solid r.priority
  pub priority_some : is_empty r.priority ≡ false
  pub priority_free : Free b':' r.priority
  pub first_in : is_space r.first ≡ false
  pub last_in : is_space r.last ≡ false
  pub text_free : Free b':' (text_of r)
  pub text_line : Free 10 (text_of r)

-- `2000: from all iif br0 lookup 1000`
abbrev pub rule_line : Shown → Bytes
rule_line r = r.priority ++ b':' ∷ 9 ∷ text_of r

abbrev pub print_rules : List Shown → Bytes
print_rules [] = []
print_rules (r ∷ rs) = rule_line r ++ 10 ∷ print_rules rs

rule_line-Free : (r : Shown) → IsShown r → Free 10 (rule_line r)
unfolding is_space
rule_line-Free r v =
    All-append (λ c. (c == 10) ≡ false) r.priority (b':' ∷ 9 ∷ text_of r)
      (Solid-Free 10 r.priority refl v.priority_in) (refl, (refl, v.text_line))

-- A line of the list is as trimmed as it can be.
trim_space-word :
    (p : Bytes) (r : Shown)
    → IsShown r
    → Solid p
    → is_empty p ≡ false
    → trim_space (p ++ b':' ∷ 9 ∷ text_of r) ≡ p ++ b':' ∷ 9 ∷ text_of r
trim_space-word [] r v solid some_byte = absurd (let n : true ≡ false = some_byte in cc)
trim_space-word (c ∷ p) r v (s, ss) some_byte =
    let e : p ++ b':' ∷ 9 ∷ text_of r ≡ (p ++ b':' ∷ 9 ∷ r.first ∷ r.between) ++ r.last ∷ [] =
      simp (append_assoc) in
    ap (λ x. trim_space (c ∷ x)) e
    ∙ trim_space_kept c (p ++ b':' ∷ 9 ∷ r.first ∷ r.between) r.last s v.last_in
    ∙ ap (λ x. c ∷ x) (sym e)

rule_line_some : (r : Shown) → is_empty (rule_line r) ≡ false
rule_line_some r = is_empty-append r.priority b':' (9 ∷ text_of r)

parse_output_lines-print_rules :
    (rs : List Shown) → All IsShown rs → parse_output_lines (print_rules rs) ≡ map rule_line rs
unfolding parse_output_lines split trim_space trim_front
parse_output_lines-print_rules [] v = refl
parse_output_lines-print_rules (r ∷ rs) (v, vs) =
    rw
      (
        split-append 10 (rule_line r) (print_rules rs) (rule_line-Free r v),
        trim_space-word r.priority r v v.priority_in v.priority_some,
        rule_line_some r,
      )
      (ap (λ x. rule_line r ∷ x) (parse_output_lines-print_rules rs vs))

is_rule_line-rule_line :
    (def : Bytes) (r : Shown) → IsShown r → is_rule_line def (rule_line r) ≡ (text_of r =? def)
unfolding is_rule_line is_space
is_rule_line-rule_line def r v =
    rw
      (
        is_rule_line,
        split-append b':' r.priority (9 ∷ text_of r) v.priority_free,
        split-Free b':' (9 ∷ text_of r) (refl, v.text_free),
        trim_space-front 9 (text_of r) refl,
        trim_space_kept r.first r.between r.last v.first_in v.last_in,
      )
      refl

any-rule_line :
    (def : Bytes) (rs : List Shown)
    → All IsShown rs
    → any (is_rule_line def) (map rule_line rs) ≡ any (λ r. text_of r =? def) rs
any-rule_line def [] v = refl
any-rule_line def (r ∷ rs) (v, vs) =
    rw (is_rule_line-rule_line def r v, any-rule_line def rs vs) refl

abbrev pub list_args : List Bytes
list_args = ip_arg ∷ rule_arg ∷ list_arg ∷ []

-- HasRule says whether one of the rules that the command prints has the text of the rule, whatever
-- its priority is.
pub has_rule-print_rules :
    (run : List Bytes → Output) (rule : RoutingRule) (rs : List Shown)
    → All IsShown rs
    → run list_args ≡ record { stdout = print_rules rs; error = none }
    → has_rule run rule ≡ replied (any (λ r. text_of r =? rule_text rule) rs)
unfolding has_rule run_cmd result_of
has_rule-print_rules run rule rs v e =
    rw (has_rule, run_cmd, e)
      (ap replied (
        ap (any (is_rule_line (rule_text rule))) (parse_output_lines-print_rules rs v)
        ∙ any-rule_line (rule_text rule) rs v))
