-- ===== src/Config/Reload.antt =====
-- How changes of the configuration file reach the server.
use keenetic_dns.Prelude.{
  ℕ, zero, suc, ◌<◌, ◌≡◌, refl, ap, ◌∙◌, Option, none, some, List, [], ◌∷◌, ◌++◌, replicate, lt→ltb,
  append-nil, sym, ltb-false, Bytes, arith,
}
use keenetic_dns.Types.{Outcome, returns, fails}
use keenetic_dns.Config.{Config, load_config, Watch, Version, check_version, check_versions}

module _ (decode : Bytes → Config → Outcome Config) (embedded : Config) where
  -- A version that is ignored at every tick.
  ignores :
      (n : ℕ) (v : Version) (vs : List Version) (w : Watch)
      → check_version decode embedded v w ≡ some w
      → check_versions decode embedded (replicate n v ++ vs) w ≡ check_versions decode embedded vs w
  unfolding check_versions
  ignores zero v vs w h = refl
  ignores (suc n) v vs w h = rw (check_versions, h) (ignores n v vs w h)

  -- A version of the file that is later than the loaded one is handed to the server once, at the first
  -- tick at which it can be loaded: however often it could not be before, and however often it is
  -- looked at afterwards.
  pub updated_once :
      (failed goes_on t : ℕ) (broken file : Option Bytes) (cfg : Config) (w : Watch)
      → w.mod_time < t
      → load_config decode embedded broken ≡ fails
      → load_config decode embedded file ≡ returns cfg
      → check_versions decode embedded
          (replicate failed (some t, broken) ++ (some t, file) ∷ replicate goes_on (some t, file))
          w
        ≡ some (record { mod_time = t; updates = w.updates ++ cfg ∷ [] })
  unfolding check_versions check_version
  updated_once failed goes_on t broken file cfg w newer bad good =
      let d : Watch = record { mod_time = t; updates = w.updates ++ cfg ∷ [] } in
      let ignored : check_version decode embedded (some t, broken) w ≡ some w =
        rw (check_version, lt→ltb w.mod_time t newer, bad) refl in
      let loaded : check_version decode embedded (some t, file) w ≡ some d =
        rw (check_version, lt→ltb w.mod_time t newer, good) refl in
      let same : check_version decode embedded (some t, file) d ≡ some d =
        rw (check_version, ltb-false t t (omega arith)) refl in
      ignores failed (some t, broken) ((some t, file) ∷ replicate goes_on (some t, file)) w ignored
      ∙ ap
          (λ o. elim o [
            | none ↦ none
            | some w' ↦ check_versions decode embedded (replicate goes_on (some t, file)) w'
          ])
          loaded
      ∙ ap (λ l. check_versions decode embedded l d)
          (sym (append-nil (replicate goes_on (some t, file))))
      ∙ ignores goes_on (some t, file) [] d same
