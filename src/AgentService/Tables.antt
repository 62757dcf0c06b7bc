-- ===== src/AgentService/Tables.antt =====
-- What the agent reads from the tables that the `ip` command prints, and what the server makes of it.
use keenetic_dns.Prelude.{
  ℕ, ◌≡◌, refl, ap, ◌∙◌, none, true, false, List, [], ◌∷◌, ◌++◌, map, All, All-append, ◌==◌,
  ==-false, Bytes, arith, append_assoc, bytes_eq,
}
use keenetic_dns.Text.{itoa, split, trim_space, trim_front, is_space, is_empty}
use keenetic_dns.Text.Fields.{Free, Solid, Solid-Free, split-append, trim_space_back}
use keenetic_dns.Routes.{AgentRoute}
use keenetic_dns.AgentService.{
  Output, replied, parse_output_lines, route_of_fields, routes_of_lines, run_cmd, result_of,
  list_routes, ip_arg, route_arg, list_arg, table_arg,
}

-- A route as the table shows it: its address and its interface.
abbrev pub Shown : Type 0
Shown = Bytes × Bytes

-- Address and interface are words.
pub record IsShown (r : Shown) : Type 0 where
  pub address_in : Solid r.0
  pub address_some : is_empty r.0 ≡ false
  pub iface_in : Solid r.1

-- `209.85.233.100 dev ovpn_br0 scope link`
abbrev pub route_line : Shown → Bytes
route_line (address, iface) =
    address
    ++ b' '
      ∷ b'd'
      ∷ b'e'
      ∷ b'v'
      ∷ b' '
      ∷ (iface ++ b' ' ∷ b's' ∷ b'c' ∷ b'o' ∷ b'p' ∷ b'e' ∷ b' ' ∷ b'l' ∷ b'i' ∷ b'n' ∷ b'k' ∷ [])

-- The table, with the space that the command leaves at the end of a line.
abbrev pub print_routes : List Shown → Bytes
print_routes [] = []
print_routes (r ∷ rs) = (route_line r ++ b' ' ∷ []) ++ 10 ∷ print_routes rs

abbrev pub as_route : ℕ → Shown → AgentRoute
as_route table (address, iface) = record { table = table; iface = iface; address = address }

-- The line ends in a byte that is no white space.
abbrev line_front : Shown → Bytes
line_front (address, iface) =
    address
    ++ b' '
      ∷ b'd'
      ∷ b'e'
      ∷ b'v'
      ∷ b' '
      ∷ (iface ++ b' ' ∷ b's' ∷ b'c' ∷ b'o' ∷ b'p' ∷ b'e' ∷ b' ' ∷ b'l' ∷ b'i' ∷ b'n' ∷ [])

route_line_ends : (r : Shown) (w : Bytes) → route_line r ++ w ≡ line_front r ++ b'k' ∷ w
route_line_ends (address, iface) w = simp (append_assoc)

Free-append : (sep : ℕ) (s t : Bytes) → Free sep s → Free sep t → Free sep (s ++ t)
Free-append sep s t = All-append (λ c. (c == sep) ≡ false) s t

route_line-Free : (r : Shown) → IsShown r → Free 10 (route_line r ++ b' ' ∷ [])
unfolding is_space
route_line-Free (address, iface) v =
    Free-append 10 (route_line (address, iface)) (b' ' ∷ [])
      (Free-append 10 address _ (Solid-Free 10 address refl v.address_in) (
        refl,
        (
          refl,
          (
            refl,
            (
              refl,
              (
                refl,
                (Free-append 10 iface _ (Solid-Free 10 iface refl v.iface_in) (
                  refl,
                  (
                    refl,
                    (refl, (refl, (refl, (refl, (refl, (refl, (refl, (refl, (refl, tt))))))))),
                  ),
                )),
              ),
            ),
          ),
        ),
      ))
      (refl, tt)

trim_space-route_line :
    (r : Shown) → IsShown r → trim_space (route_line r ++ b' ' ∷ []) ≡ route_line r
unfolding is_space
trim_space-route_line ([], iface) v = absurd (let n : true ≡ false = v.address_some in cc)
trim_space-route_line (c ∷ address, iface) v =
    ap trim_space (route_line_ends (c ∷ address, iface) (b' ' ∷ []))
    ∙ trim_space_back c (line_front (address, iface)) b'k' v.address_in.0 refl
    ∙ simp (append_assoc)

route_line_some : (r : Shown) → IsShown r → is_empty (route_line r) ≡ false
route_line_some ([], iface) v = absurd (let n : true ≡ false = v.address_some in cc)
route_line_some (c ∷ address, iface) v = ==-false _ 0 (omega arith)

-- The lines of the table, trimmed.
parse_output_lines-print_routes :
    (rs : List Shown) → All IsShown rs → parse_output_lines (print_routes rs) ≡ map route_line rs
unfolding parse_output_lines split trim_space trim_front
parse_output_lines-print_routes [] v = refl
parse_output_lines-print_routes (r ∷ rs) (v, vs) =
    rw
      (
        split-append 10 (route_line r ++ b' ' ∷ []) (print_routes rs) (route_line-Free r v),
        trim_space-route_line r v,
        route_line_some r v,
      )
      (ap (λ x. route_line r ∷ x) (parse_output_lines-print_routes rs vs))

scope_link :
    split b' ' (b's' ∷ b'c' ∷ b'o' ∷ b'p' ∷ b'e' ∷ b' ' ∷ b'l' ∷ b'i' ∷ b'n' ∷ b'k' ∷ [])
    ≡ (b's' ∷ b'c' ∷ b'o' ∷ b'p' ∷ b'e' ∷ []) ∷ (b'l' ∷ b'i' ∷ b'n' ∷ b'k' ∷ []) ∷ []
unfolding split
scope_link = refl

-- The five fields of a line.
split-route_line :
    (r : Shown)
    → IsShown r
    → split b' ' (route_line r)
      ≡ r.0
        ∷ (b'd' ∷ b'e' ∷ b'v' ∷ [])
        ∷ r.1
        ∷ (b's' ∷ b'c' ∷ b'o' ∷ b'p' ∷ b'e' ∷ [])
        ∷ (b'l' ∷ b'i' ∷ b'n' ∷ b'k' ∷ [])
        ∷ []
unfolding is_space
split-route_line (address, iface) v =
    split-append b' ' address _ (Solid-Free b' ' address refl v.address_in)
    ∙ ap (λ x. address ∷ x)
        (split-append b' ' (b'd' ∷ b'e' ∷ b'v' ∷ []) _ (refl, (refl, (refl, tt)))
          ∙ ap (λ x. (b'd' ∷ b'e' ∷ b'v' ∷ []) ∷ x)
              (split-append b' ' iface _ (Solid-Free b' ' iface refl v.iface_in)
                ∙ ap (λ x. iface ∷ x) scope_link))

routes_of_lines-map :
    (table : ℕ) (rs : List Shown)
    → All IsShown rs
    → routes_of_lines table (map route_line rs) ≡ map (as_route table) rs
unfolding routes_of_lines route_of_fields
routes_of_lines-map table [] v = refl
routes_of_lines-map table (r ∷ rs) (v, vs) =
    rw (routes_of_lines, split-route_line r v)
      (ap (λ x. as_route table r ∷ x) (routes_of_lines-map table rs vs))

-- The arguments of the command that prints a table.
abbrev pub list_args : ℕ → List Bytes
list_args table = ip_arg ∷ route_arg ∷ list_arg ∷ table_arg ∷ itoa table ∷ []

-- ListRoutes reads back every table of routes with an address and an interface that the command
-- prints, in order.
pub list_routes-print_routes :
    (run : List Bytes → Output) (table : ℕ) (rs : List Shown)
    → All IsShown rs
    → run (list_args table) ≡ record { stdout = print_routes rs; error = none }
    → list_routes run table ≡ replied (map (as_route table) rs)
unfolding list_routes run_cmd result_of
list_routes-print_routes run table rs v e =
    rw (list_routes, run_cmd, e)
      (ap replied (
        ap (routes_of_lines table) (parse_output_lines-print_routes rs v)
        ∙ routes_of_lines-map table rs v))
