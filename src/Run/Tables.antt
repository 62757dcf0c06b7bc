-- ===== src/Run/Tables.antt =====
-- Sets of routes that are all of one table.
use keenetic_dns.Prelude.{
  ℕ, ◌≡◌, refl, sym, ◌∙◌, subst, ◌⊎◌, List, [], ◌∷◌, All, All-append, map, Bytes, ◌=?◌, Bool-cases,
  inl, inr, Option,
}
use keenetic_dns.GoMap
use keenetic_dns.Util.Set
use keenetic_dns.Util.Set.{Set}
use keenetic_dns.Types.{IPv4, Outcome, returns, fails, panics, parse_ipv4}
use keenetic_dns.Routes.{IpRoute, Agent, route_eq, AgentRoute, parse_routes, static_routes_of}

pub returns_injective {ℓ} : {A : Type ℓ} {a b : A} → returns a ≡ returns b → a ≡ b
returns_injective e = cc

pub outcome_cases {ℓ} :
    {A : Type ℓ} (o : Outcome A) → ((o ≡ fails) ⊎ (o ≡ panics)) ⊎ ((a : A) × (o ≡ returns a))
outcome_cases fails = inl (inl refl)
outcome_cases panics = inl (inr refl)
outcome_cases (returns a) = inr (a, refl)

module _ (table : ℕ) where
  abbrev pub OfTable : List IpRoute → Type 0
  OfTable rs = All (λ r. r.table ≡ table) rs

  pub delete-OfTable :
      (r : IpRoute) (m : Set IpRoute)
      → OfTable (Set.values m)
      → OfTable (Set.values (GoMap.delete r m))
  unfolding GoMap.delete
  delete-OfTable r [] all = tt
  delete-OfTable r ((x, v) ∷ m) (h, hs) = elim (Bool-cases (x =? r)) [
    | inl e ↦ rw e (delete-OfTable r m hs)
    | inr e ↦ rw e (h, delete-OfTable r m hs)
  ]

  put-OfTable :
      (r : IpRoute) (m : Set IpRoute)
      → r.table ≡ table
      → OfTable (Set.values m)
      → OfTable (Set.values (GoMap.put r tt m))
  unfolding GoMap.put
  put-OfTable r m h all = (h, delete-OfTable r m all)

  pub remove-OfTable :
      (r : IpRoute) (m : Set IpRoute)
      → OfTable (Set.values m)
      → OfTable (Set.values (Set.remove r m))
  unfolding Set.remove
  remove-OfTable r m all = delete-OfTable r m all

  pub insert-OfTable :
      (r : IpRoute) (m : Set IpRoute)
      → r.table ≡ table
      → OfTable (Set.values m)
      → OfTable (Set.values (Set.insert r m))
  unfolding Set.add
  insert-OfTable r m h all = elim (Bool-cases (GoMap.has r m)) [
    | inl e ↦ rw (Set.insert, Set.add, e) all
    | inr e ↦ rw (Set.insert, Set.add, e) (put-OfTable r m h all)
  ]

  pub parse_routes-OfTable :
      (parse_ipv6 : Bytes → Option Bytes) (its : List AgentRoute) (known set : Set IpRoute)
      → All (λ it. it.table ≡ table) its
      → OfTable (Set.values known)
      → parse_routes parse_ipv6 its known ≡ returns set
      → OfTable (Set.values set)
  unfolding parse_routes
  parse_routes-OfTable parse_ipv6 [] known set honest all e =
      subst (λ m. OfTable (Set.values m)) (returns_injective e) all
  parse_routes-OfTable parse_ipv6 (it ∷ its) known set (h, hs) all e =
      elim (outcome_cases (parse_ipv4 parse_ipv6 it.address)) [
        | inl (inl failed) ↦ parse_routes-OfTable parse_ipv6 its known set hs all (
            let same : parse_routes parse_ipv6 its known
                ≡ parse_routes parse_ipv6 (it ∷ its) known =
              rw (parse_routes, failed) refl in
            same ∙ e)
        | inl (inr panicked) ↦
            absurd
              (let no : panics ≡ returns set = sym (rw (parse_routes, panicked) refl) ∙ e in cc)
        | inr (addr, parsed) ↦
            parse_routes-OfTable parse_ipv6 its _ set hs
              (put-OfTable (record { table = it.table; iface = it.iface; addr = addr }) known h all)
              (let same : parse_routes parse_ipv6 its (
                      GoMap.put (record { table = it.table; iface = it.iface; addr = addr }) tt
                        known)
                    ≡ parse_routes parse_ipv6 (it ∷ its) known =
                  rw (parse_routes, parsed) refl in
                same ∙ e)
      ]

  addresses-OfTable :
      (iface : Bytes) (addresses : List IPv4)
      → OfTable (map (λ ip. record { table = table; iface = iface; addr = ip }) addresses)
  addresses-OfTable iface [] = tt
  addresses-OfTable iface (ip ∷ ips) = (refl, addresses-OfTable iface ips)

  pub static-OfTable :
      (agent : Agent) (m : List (Bytes × List IPv4)) → OfTable (static_routes_of agent table m)
  unfolding static_routes_of
  static-OfTable agent [] = tt
  static-OfTable agent ((iface, addresses) ∷ m) =
      All-append _ _ _ (addresses-OfTable iface addresses) (static-OfTable agent m)
