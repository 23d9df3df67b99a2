-- ===== src/Monitor/Watcher/Registry.antt =====
-- The registries of the watcher (src/monitor/mod.rs): what a registration makes known.
use huntkey.Prelude.{
  ◌≡◌, ◌≢◌, ◌∙◌, refl, sym, ap, ◌&&◌, ◌||◌, or-false, List, [], ◌∷◌, map, any-append, arith, All,
  Distinct, Bool-cases, inl, inr,
}
use huntkey.Prelude.Bytes.{Bytes, bytes_eq, bytes_eq_iff}
use huntkey.Prelude.Members.{member}
use huntkey.Monitor.Watcher.{
  IdentityWatcher, register_guardians, add_delegate, register_delegate, lists, is_known_guardian,
  is_known_delegate, members_of,
}

lists-add_delegate :
    (entries : List (Bytes × List Bytes)) (identity delegate i d : Bytes)
    → lists (add_delegate entries identity delegate) i d
      ≡ (lists entries i d || (bytes_eq identity i && bytes_eq d delegate))
unfolding add_delegate
lists-add_delegate [] identity delegate i d = ground arith
lists-add_delegate ((id, ds) ∷ entries) identity delegate i d = ground (
  arith,
  any-append (bytes_eq d) ds (delegate ∷ []),
  bytes_eq_iff id identity,
  lists-add_delegate entries identity delegate i d,
)

-- After a registration the watcher knows, of every identity, the delegates that it knew and, of
-- the given identity, the given delegate.
pub is_known_delegate-register_delegate :
    (w : IdentityWatcher) (identity delegate i d : Bytes)
    → is_known_delegate (register_delegate w identity delegate) i d
      ≡ (is_known_delegate w i d || (bytes_eq identity i && bytes_eq d delegate))
unfolding is_known_delegate register_delegate
is_known_delegate-register_delegate w = lists-add_delegate w.known_delegates

-- After a registration the watcher knows, of every identity, the guardians that it knew and, of
-- the given identity, the given guardians.
pub is_known_guardian-register_guardians :
    (w : IdentityWatcher) (identity : Bytes) (guardians : List Bytes) (i g : Bytes)
    → is_known_guardian (register_guardians w identity guardians) i g
      ≡ (is_known_guardian w i g || (bytes_eq identity i && member g guardians))
unfolding is_known_guardian register_guardians
is_known_guardian-register_guardians w identity guardians i g =
    any-append (λ (id, members). bytes_eq id i && member g members) w.known_guardians
      ((identity, guardians) ∷ [])
    ∙ ap (λ b. lists w.known_guardians i g || b)
        (sym (or-false (bytes_eq identity i && member g guardians)))

-- The guardians that a notification reaches are the known guardians.
pub member-members_of :
    (entries : List (Bytes × List Bytes)) (i g : Bytes)
    → member g (members_of entries i) ≡ lists entries i g
unfolding members_of
member-members_of [] i g = refl
member-members_of ((id, members) ∷ entries) i g =
    ground
      (arith, any-append (bytes_eq g) members (members_of entries i), member-members_of entries i g)

abbrev pub ids : List (Bytes × List Bytes) → List Bytes
ids = map (λ (id, members). id)

All-ids-add_delegate :
    (entries : List (Bytes × List Bytes)) (x identity delegate : Bytes)
    → x ≢ identity
    → All (λ y. x ≢ y) (ids entries)
    → All (λ y. x ≢ y) (ids (add_delegate entries identity delegate))
unfolding add_delegate
All-ids-add_delegate [] x identity delegate ne h = (ne, tt)
All-ids-add_delegate ((id, ds) ∷ entries) x identity delegate ne (h, hs) =
    elim (Bool-cases (bytes_eq id identity)) [
      | inl same ↦ rw same (h, hs)
      | inr other ↦ rw other (h, All-ids-add_delegate entries x identity delegate ne hs)
    ]

Distinct-add_delegate :
    (entries : List (Bytes × List Bytes)) (identity delegate : Bytes)
    → Distinct (ids entries)
    → Distinct (ids (add_delegate entries identity delegate))
unfolding add_delegate
Distinct-add_delegate [] identity delegate d = (tt, tt)
Distinct-add_delegate ((id, ds) ∷ entries) identity delegate (fresh, d) =
    elim (Bool-cases (bytes_eq id identity)) [
      | inl same ↦ rw same (fresh, d)
      | inr other ↦ rw other (
        All-ids-add_delegate entries id identity delegate
            (λ e. ground (arith, (bytes_eq_iff id identity).1 e)) fresh,
        Distinct-add_delegate entries identity delegate d,
      )
    ]

-- A list of registrations, one after another.
register_delegates : IdentityWatcher → List (Bytes × Bytes) → IdentityWatcher
register_delegates w [] = w
register_delegates w ((identity, delegate) ∷ rest) =
    register_delegates (register_delegate w identity delegate) rest

-- Registering delegates one after another in a registry with at most one entry for each identity
-- keeps it so.
register_delegates-Distinct :
    (w : IdentityWatcher) (registrations : List (Bytes × Bytes))
    → Distinct (ids w.known_delegates)
    → Distinct (ids (register_delegates w registrations).known_delegates)
unfolding register_delegates register_delegate
register_delegates-Distinct w [] d = d
register_delegates-Distinct w ((identity, delegate) ∷ rest) d =
    register_delegates-Distinct (register_delegate w identity delegate) rest
      (Distinct-add_delegate w.known_delegates identity delegate d)
