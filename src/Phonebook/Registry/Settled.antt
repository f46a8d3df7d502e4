-- ===== src/Phonebook/Registry/Settled.antt =====
-- What src/phonebook.rs `registry_plan` promises: the registry converges on the fold.
use fgtw.Base.{
  ℕ, suc, ◌^◌, ◌<◌, ◌≡◌, refl, sym, ap, subst, ◌∙◌, inl, inr, true, Option, some, List, [], ◌∷◌,
  length, ◌==◌, ==_iff, All, arith, Bool-cases,
}
use fgtw.Base.Bytes.{Bytes, Is32, eqb, eqb_iff, eqb_refl}
use fgtw.Base.Int.{ℤ}
use fgtw.Primitives.{Primitives, Egg}
use fgtw.Pq.Scheme.{Mask}
use fgtw.Fleet.Members.{contains, Distinct}
use fgtw.Fleet.Build.Signer.{FleetSigner}
use fgtw.Phonebook.Record.{Record, count}
use fgtw.Phonebook.Counts.{IsKey?}
use fgtw.Phonebook.Registry.{
  RegistryView, devices, target, pointer_writes, leaver_of, count_stale, plan_for, registry_plan,
}
use fgtw.Phonebook.Registry.Target.{contains-target, target-Distinct, target-same}
use fgtw.Phonebook.Registry.Land.{Store, shown, land_all, Writer, IsOlder}
use fgtw.Phonebook.Registry.Converge.{plan_for-Shows}

All-contains :
    (P : Bytes → Type 0) (ds : List Bytes) → ((d : Bytes) → contains ds d ≡ true → P d) → All P ds
unfolding contains
All-contains P [] h = tt
All-contains P (d ∷ ds) h =
    (h d (ground (arith, eqb_refl d)), All-contains P ds (λ t e. h t (ground (arith, e))))

contains-All :
    (P : Bytes → Type 0) (ds : List Bytes) (d : Bytes) → All P ds → contains ds d ≡ true → P d
unfolding contains
contains-All P [] d h e = cc
contains-All P (c ∷ ds) d h e = elim (Bool-cases (eqb c d)) [
  | inl same ↦ subst P ((eqb_iff c d).0 same) h.0
  | inr other ↦ contains-All P ds d h.1 (ground (arith, e, other))
]

module _ (p : Primitives) (signer : FleetSigner) (mask : Mask) (hp : Bytes) (t : ℤ) where
  same-writes : (list : List Bytes) (idx : ℕ) → pointer_writes p signer mask hp t idx list list ≡ []
  unfolding pointer_writes
  same-writes [] idx = refl
  same-writes (d ∷ ds) idx = rw (eqb_refl d) (same-writes ds (suc idx))

  -- A registry that shows the list, and counts it, wants no write.
  quiet :
      (view : RegistryView) (list : List Bytes) (departing : Option (Bytes × List Egg)) (c : Record)
      → devices view ≡ list
      → view.count_record ≡ some c
      → count c ≡ length list
      → plan_for p signer mask hp t view departing list ≡ []
  unfolding plan_for count_stale
  quiet view list departing c shows counted same =
      let equal : (count c == length list) ≡ true = (==_iff (count c) (length list)).1 same in
      rw (shows, same-writes list 0, counted, equal) refl

  -- The plan for what storage shows, landed there with an epoch newer than every stored record's, gives
  -- the registry the fold's members and no other device, each once if each stood there once; and a
  -- registry so converged wants no further write. Keys and digests have 32
  -- bytes, the epoch is an i64, and the devices fit a u32.
  pub registry_plan-converges :
      (fold : List Bytes) (s : Store) (departing again : Option (Bytes × List Egg))
      → Writer p signer mask hp t
      → IsKey? (leaver_of p signer mask hp t departing)
      → IsOlder t s
      → All Is32 fold
      → length (target fold (devices (shown s))) < 2 ^ 32
      → let out =
          shown (land_all p s (registry_plan p signer mask hp t fold (shown s) departing)) in
        ((d : Bytes) → contains (devices out) d ≡ contains fold d)
        × (Distinct (devices (shown s)) → Distinct (devices out))
        × (registry_plan p signer mask hp t fold out again ≡ [])
  unfolding registry_plan
  registry_plan-converges fold s departing again writer leaver32 older fold32 small =
      let view = shown s in
      let list = target fold (devices view) in
      let members = contains-target fold (devices view) in
      let all32 =
        All-contains Is32 list (λ d e. contains-All Is32 fold d fold32 (sym (members d) ∙ e)) in
      let (shows, (c, is_c, same)) =
        plan_for-Shows p signer mask hp t writer departing leaver32 s list older all32 small in
      let out = shown (land_all p s (plan_for p signer mask hp t view departing list)) in
      let stays : target fold (devices out) ≡ list =
        ap (target fold) shows ∙ target-same fold list members in
      (
        λ d. ap (λ ds. contains ds d) shows ∙ members d,
        λ once. subst Distinct (sym shows) (target-Distinct fold (devices view) once),
        rw stays (quiet out list again c shows is_c same),
      )
