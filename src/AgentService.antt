-- ===== src/AgentService.antt =====
-- agent/internal/service.go: the service that runs the `ip` command and reads what it prints. What a
-- command does is a parameter. The messages of the log are left out.
pub mod Tables
pub mod Rules
pub mod Server
use keenetic_dns.Prelude.{
  ℕ, ◌+◌, ◌≡◌, Option, none, some, Bool, true, false, not, ◌&&◌, List, [], ◌∷◌, ◌++◌, map, keep,
  length, ◌==◌, if◌then◌else◌, any, Bytes, bytes_eq, ◌=?◌, ℤ, pos, negsuc,
}
use keenetic_dns.Text.{itoa, split, trim_space, is_empty}
use keenetic_dns.Config.{RoutingRule}
use keenetic_dns.Routes.{AgentRoute, Agent}

-- What `cmd.Output` returns: the output, and an error, which for a command that ran and failed is
-- an `exec.ExitError` with the exit code and what was printed as errors.
pub record Output : Type 0 where
  pub stdout : Bytes
  pub error : Option (Option (ℤ × Bytes))

-- `cmdRunResult`
pub record CmdRunResult : Type 0 where
  pub output : Bytes
  pub err_output : Bytes
  pub exit_code : ℤ

-- The error of an answer: the command's own, or one with the code "internal" and a `CmdErrorInfo`.
pub data RpcError : Type 0 where
  plain : RpcError
  internal : ℤ → Bytes → RpcError

pub data Reply (A : Type 0) : Type 0 where
  replied : A → Reply A
  failed : RpcError → Reply A

abbrev pub answer_of : {A : Type 0} → Reply A → Option A
answer_of (replied v) = some v
answer_of (failed e) = none

abbrev pub succeeded : {A : Type 0} → Reply A → Bool
succeeded (replied v) = true
succeeded (failed e) = false

-- `wrapError`; an exit code has 32 bits.
abbrev is_zero : ℤ → Bool
is_zero (pos n) = n == 0
is_zero (negsuc n) = false

unfoldable pub wrap_error : CmdRunResult → RpcError
wrap_error r =
    if is_empty r.err_output && is_zero r.exit_code
    then plain
    else internal r.exit_code r.err_output

-- `parseOutputLines`
unfoldable pub parse_output_lines : Bytes → List Bytes
parse_output_lines output = keep (λ s. not (is_empty s)) (map trim_space (split 10 output))

abbrev pub ip_arg : Bytes
ip_arg = b'i' ∷ b'p' ∷ []

abbrev pub rule_arg : Bytes
rule_arg = b'r' ∷ b'u' ∷ b'l' ∷ b'e' ∷ []

abbrev pub list_arg : Bytes
list_arg = b'l' ∷ b'i' ∷ b's' ∷ b't' ∷ []

abbrev pub add_arg : Bytes
add_arg = b'a' ∷ b'd' ∷ b'd' ∷ []

abbrev pub del_arg : Bytes
del_arg = b'd' ∷ b'e' ∷ b'l' ∷ []

abbrev pub iif_arg : Bytes
iif_arg = b'i' ∷ b'i' ∷ b'f' ∷ []

abbrev pub table_arg : Bytes
table_arg = b't' ∷ b'a' ∷ b'b' ∷ b'l' ∷ b'e' ∷ []

abbrev pub priority_arg : Bytes
priority_arg = b'p' ∷ b'r' ∷ b'i' ∷ b'o' ∷ b'r' ∷ b'i' ∷ b't' ∷ b'y' ∷ []

abbrev pub route_arg : Bytes
route_arg = b'r' ∷ b'o' ∷ b'u' ∷ b't' ∷ b'e' ∷ []

abbrev pub dev_arg : Bytes
dev_arg = b'd' ∷ b'e' ∷ b'v' ∷ []

-- `from all iif %s lookup %d`
unfoldable pub rule_text : RoutingRule → Bytes
rule_text rule =
    b'f' ∷ b'r' ∷ b'o' ∷ b'm' ∷ b' ' ∷ b'a' ∷ b'l' ∷ b'l' ∷ b' ' ∷ b'i' ∷ b'i' ∷ b'f' ∷ b' ' ∷ []
    ++ rule.iif
    ++ b' ' ∷ b'l' ∷ b'o' ∷ b'o' ∷ b'k' ∷ b'u' ∷ b'p' ∷ b' ' ∷ []
    ++ itoa rule.table

-- Whether a line is one of the rule: `2000: from all iif br0 lookup 1000`.
unfoldable pub is_rule_line : Bytes → Bytes → Bool
is_rule_line def line = elim (split b':' line) [
  | [] ↦ false
  | ◌∷◌ priority (more → r) ↦ elim more [
    | [] ↦ false
    | ◌∷◌ text (rest → r') ↦ if length rest == 0 then trim_space text =? def else false
  ]
]

-- The route of a line with five fields: `209.85.233.100 dev ovpn_br0 scope link`.
unfoldable pub route_of_fields : ℕ → List Bytes → Option AgentRoute
route_of_fields table (address ∷ d ∷ iface ∷ s ∷ l ∷ []) =
    some (record { table = table; iface = iface; address = address })
route_of_fields table _ = none

unfoldable pub routes_of_lines : ℕ → List Bytes → List AgentRoute
routes_of_lines table [] = []
routes_of_lines table (line ∷ lines) =
    let rest = routes_of_lines table lines in
    elim (route_of_fields table (split b' ' line)) [ none ↦ rest | some r ↦ r ∷ rest ]

-- `runCmd`: the result, and whether there is an error.
unfoldable pub result_of : Output → CmdRunResult × Bool
result_of o = elim o.error [
  | none ↦ (record { output = o.stdout; err_output = []; exit_code = pos 0 }, false)
  | some e ↦ elim e [
    | none ↦ (record { output = o.stdout; err_output = []; exit_code = pos 0 }, true)
    | some (code, stderr) ↦
        (record { output = o.stdout; err_output = stderr; exit_code = code }, true)
  ]
]

module _ (run : List Bytes → Output) where
  unfoldable pub run_cmd : List Bytes → CmdRunResult × Bool
  run_cmd args = result_of (run args)

  -- `HasRule`
  unfoldable pub has_rule : RoutingRule → Reply Bool
  has_rule rule =
      let (res, err) = run_cmd (ip_arg ∷ rule_arg ∷ list_arg ∷ []) in
      if err
      then failed (wrap_error res)
      else replied (any (is_rule_line (rule_text rule)) (parse_output_lines res.output))

  -- `AddRule`
  unfoldable pub add_rule : RoutingRule → Reply Unit
  add_rule rule =
      let (res, err) = run_cmd (
        ip_arg
        ∷ rule_arg
        ∷ add_arg
        ∷ iif_arg
        ∷ rule.iif
        ∷ table_arg
        ∷ itoa rule.table
        ∷ priority_arg
        ∷ itoa rule.priority
        ∷ []) in
      if err then failed (wrap_error res) else replied tt

  -- `ListRoutes`
  unfoldable pub list_routes : ℕ → Reply (List AgentRoute)
  list_routes table =
      let (res, err) = run_cmd (ip_arg ∷ route_arg ∷ list_arg ∷ table_arg ∷ itoa table ∷ []) in
      if err
      then failed (wrap_error res)
      else replied (routes_of_lines table (parse_output_lines res.output))

  -- `AddRoute`
  unfoldable pub add_route : AgentRoute → Reply Unit
  add_route route =
      let (res, err) = run_cmd (
        ip_arg
        ∷ route_arg
        ∷ add_arg
        ∷ table_arg
        ∷ itoa route.table
        ∷ route.address
        ∷ dev_arg
        ∷ route.iface
        ∷ []) in
      if err then failed (wrap_error res) else replied tt

  -- `DeleteRoute`
  unfoldable pub delete_route : AgentRoute → Reply Unit
  delete_route route =
      let (res, err) = run_cmd (
        ip_arg
        ∷ route_arg
        ∷ del_arg
        ∷ table_arg
        ∷ itoa route.table
        ∷ route.address
        ∷ dev_arg
        ∷ route.iface
        ∷ []) in
      if err then failed (wrap_error res) else replied tt

  -- The service as the server sees it: the transport hands on requests and answers unchanged.
  unfoldable pub agent_of : Agent
  agent_of = record {
    accepts_route = λ r. succeeded (add_route r);
    accepts_delete = λ r. succeeded (delete_route r);
    list_routes = λ t. answer_of (list_routes t);
    has_rule = λ r. answer_of (has_rule r);
  }
