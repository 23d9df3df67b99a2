-- ===== src/Core/Keys/WrapAround.antt =====
-- What `next_action_key` of src/core/mod.rs does at the end of the 32-bit index.
use huntkey.Prelude.{
  ℕ, zero, suc, ◌+◌, ◌<◌, ◌≤◌, map-append, ◌≡◌, ◌∙◌, sym, ap, refl, Option, none, some, List, [],
  ◌∷◌, ◌++◌, Build, debug, release, arith, map, length, ◌>>=◌, length-append, Option-cases, inl,
  inr,
}
use huntkey.Crypto.{Crypto}
use huntkey.Core.Keys as Keys
use huntkey.Core.Keys.{
  DerivedKey, action, role_path, derive_key, KeyHierarchy, derive_role, next_action_key,
}
use huntkey.Core.Keys.ActionKeys.{action_key, issue, action_paths, Derivable, issue_lem}

module _ (C : Crypto) where
  -- What calls give that follow calls that gave some keys.
  unfoldable pub after_keys :
      List DerivedKey
      → Option (List DerivedKey × KeyHierarchy C)
      → Option (List DerivedKey × KeyHierarchy C)
  after_keys keys none = none
  after_keys keys (some (more, last)) = some (keys ++ more, last)

  issue-append :
      (build : Build) (m n : ℕ) (h : KeyHierarchy C)
      → issue C build (m + n) h
        ≡ (issue C build m h >>= λ (keys, h'). after_keys keys (issue C build n h'))
  unfolding issue after_keys
  issue-append build zero n h =
      let same : 0 + n ≡ n = omega arith in
      rw same (elim (Option-cases (issue C build n h)) [
        | inl fails ↦ rw fails refl
        | inr ((more, last), runs) ↦ rw runs refl
      ])
  issue-append build (suc m) n h =
      let same : suc m + n ≡ suc (m + n) = omega arith in
      rw same (elim (Option-cases (next_action_key C build h)) [
        | inl fails ↦ rw fails refl
        | inr ((key, h1), issued) ↦
            rw (issued, issue-append build m n h1)
              (elim (Option-cases (issue C build m h1)) [
                | inl fails ↦ rw fails refl
                | inr ((keys, h2), runs) ↦ rw runs (elim (Option-cases (issue C build n h2)) [
                  | inl fails ↦ rw fails refl
                  | inr ((more, last), ends) ↦ rw ends refl
                ])
              ])
      ])

  -- The paths of one index more.
  action_paths-snoc :
      (build : Build) (i n : ℕ)
      → action_paths C build i (suc n) ≡ action_paths C build i n ++ role_path action (i + n) ∷ []
  unfolding action_paths
  action_paths-snoc build i zero =
      let same : i ≡ i + 0 = omega arith in (λ j. role_path action (same j) ∷ [])
  action_paths-snoc build i (suc n) =
      let same : i + 1 + n ≡ i + suc n = omega arith in
      ap (λ paths. role_path action i ∷ paths)
        (action_paths-snoc build (i + 1) n
          ∙ ap (λ k. action_paths C build (i + 1) n ++ role_path action k ∷ []) same)

  -- At the last 32-bit index a debug build panics, and a release build issues the key of that index
  -- and goes back to index 0.
  last_key :
      (root d : C.XPriv)
      → C.derive_path root (role_path action 4294967295) ≡ some d
      → let h : KeyHierarchy C = record { root = root; action_index = 4294967295 } in
        (issue C debug 1 h ≡ none)
        × (issue C release 1 h ≡ some (action_key C 4294967295 d ∷ [], Keys.new C root))
  unfolding issue next_action_key derive_role derive_key Keys.new
  last_key root d e = (rw e refl, rw e refl)

  -- If the action keys of all 32-bit indices derive, then of a new hierarchy a debug build panics
  -- by the 2^32-th key, and a release build issues 2^32 keys, one for each index in order, and is
  -- back at its start: whatever number of keys it issues next, they are the first ones again.
  pub issue_wraps :
      (root : C.XPriv)
      → Derivable C release root 0 4294967296
      → (issue C debug 4294967296 (Keys.new C root) ≡ none)
        × (keys : List DerivedKey) × (length keys ≡ 4294967296)
        × (map (λ k. k.path) keys ≡ action_paths C release 0 4294967296)
        × (issue C release 4294967296 (Keys.new C root) ≡ some (keys, Keys.new C root))
        × ((n : ℕ)
            → issue C release (4294967296 + n) (Keys.new C root)
              ≡ after_keys keys (issue C release n (Keys.new C root)))
  unfolding after_keys Keys.new
  issue_wraps root derivable =
      let (d, derived) = derivable 4294967295 (omega arith) (omega arith) in
      let (overflows, wraps) = last_key root d derived in
      let before = λ (j : ℕ) (low : 0 ≤ j) (high : j < 0 + 4294967295).
        derivable j (omega arith) (omega arith) in
      let (_, debug_run, _, _) =
        issue_lem C debug 4294967295 (Keys.new C root) (omega arith) before in
      let (keys, run, many, paths) =
        issue_lem C release 4294967295 (Keys.new C root) (omega arith) before in
      let key = action_key C 4294967295 d in
      let all : issue C release 4294967296 (Keys.new C root)
          ≡ some (keys ++ key ∷ [], Keys.new C root) =
        issue-append release 4294967295 1 (Keys.new C root) ∙ rw (run, wraps) refl in
      (
        issue-append debug 4294967295 1 (Keys.new C root) ∙ rw (debug_run, overflows) refl,
        keys ++ key ∷ [],
        omega (arith, length-append keys (key ∷ []), many),
        map-append (λ k. k.path) keys (key ∷ [])
            ∙ ap (λ ps. ps ++ role_path action 4294967295 ∷ []) paths
            ∙ sym (action_paths-snoc release 0 4294967295),
        all,
        λ n. issue-append release 4294967296 n (Keys.new C root) ∙ rw all refl,
      )
