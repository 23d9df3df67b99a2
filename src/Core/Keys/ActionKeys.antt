-- ===== src/Core/Keys/ActionKeys.antt =====
-- Successive action keys of a hierarchy (`next_action_key` of src/core/mod.rs).
use huntkey.Prelude.{
  ℕ, zero, suc, ◌+◌, ◌^◌, ◌≤◌, ◌<◌, ◌≡◌, ◌≢◌, refl, Option, some, String, List, [], ◌∷◌, Build,
  add_word_fits, arith, All, Distinct, map, length, ◌>>=◌,
}
use huntkey.Crypto.{Crypto}
use huntkey.Core.Keys.{
  DerivedKey, action, role_path, derive_key, eth_address, KeyHierarchy, derive_role,
  next_action_key,
}
use huntkey.Core.Keys.Paths.{role_path_iff}

-- The action key that comes from a derived extended key.
abbrev pub action_key : (C : Crypto) → ℕ → C.XPriv → DerivedKey
action_key C index d =
    let public = C.verifying_key (C.xpriv_key d) in
    record {
      path = role_path action index;
      private_key = C.key_bytes (C.xpriv_key d);
      public_key = C.sec1_bytes public;
      eth_address = some (eth_address C public);
    }

module _ (C : Crypto) (build : Build) where
  -- `n` calls of `next_action_key`.
  unfoldable pub issue : ℕ → KeyHierarchy C → Option (List DerivedKey × KeyHierarchy C)
  issue zero h = some ([], h)
  issue (suc n) h = do
    (key, h') ← next_action_key C build h
    (keys, last) ← issue n h'
    some (key ∷ keys, last)

  -- The paths of the action keys `i`, …, `i + n - 1`.
  unfoldable pub action_paths : ℕ → ℕ → List String
  action_paths i zero = []
  action_paths i (suc n) = role_path action i ∷ action_paths (i + 1) n

  fresh_path :
      (i j n : ℕ)
      → i < j
      → j + n < 2 ^ 32
      → All (λ path. role_path action i ≢ path) (action_paths j n)
  unfolding action_paths
  fresh_path i j zero h fits = tt
  fresh_path i j (suc n) h fits = (differ, fresh_path i (j + 1) n (omega arith) (omega arith))
    where
      differ : role_path action i ≢ role_path action j
      differ e = ground (arith, (role_path_iff action i action j (omega arith) (omega arith)).0 e)

  action_paths-Distinct : (i n : ℕ) → i + n < 2 ^ 32 → Distinct (action_paths i n)
  unfolding action_paths
  action_paths-Distinct i zero h = tt
  action_paths-Distinct i (suc n) h = (
    fresh_path i (i + 1) n (omega arith) (omega arith),
    action_paths-Distinct (i + 1) n (omega arith),
  )

  -- The derivation of the action keys `i`, …, `i + n - 1` succeeds.
  abbrev pub Derivable : C.XPriv → ℕ → ℕ → Type 0
  Derivable root i n =
      (j : ℕ)
      → i ≤ j
      → j < i + n
      → (d : C.XPriv) × (C.derive_path root (role_path action j) ≡ some d)

  next_action_key_lem :
      (h : KeyHierarchy C) (d : C.XPriv)
      → h.action_index + 1 < 2 ^ 32
      → C.derive_path h.root (role_path action h.action_index) ≡ some d
      → (key : DerivedKey) × (next_action_key C build h
          ≡ some (key, record h { action_index = h.action_index + 1 }))
        × (key.path ≡ role_path action h.action_index)
  unfolding next_action_key derive_role derive_key
  next_action_key_lem h d fits e =
      (action_key C h.action_index d, rw (e, add_word_fits build 32 h.action_index 1 fits), refl)

  pub issue_lem :
      (n : ℕ) (h : KeyHierarchy C)
      → h.action_index + n < 2 ^ 32
      → Derivable h.root h.action_index n
      → (keys : List DerivedKey) × (issue n h
          ≡ some (keys, record h { action_index = h.action_index + n }))
        × (length keys ≡ n)
        × (map (λ k. k.path) keys ≡ action_paths h.action_index n)
  unfolding issue action_paths
  issue_lem zero h fits ok =
      let same : h.action_index ≡ h.action_index + 0 = omega arith in
      ([], (λ i. some ([], record h { action_index = same i })), refl, refl)
  issue_lem (suc n) h fits ok =
      let (d, derived) = ok h.action_index (omega arith) (omega arith) in
      let (key, issued, path) = next_action_key_lem h d (omega arith) derived in
      let (keys, rest, many, paths) =
        issue_lem n (record h { action_index = h.action_index + 1 }) (omega arith)
          (λ j low high. ok j (omega arith) (omega arith)) in
      let same : h.action_index + 1 + n ≡ h.action_index + suc n = omega arith in
      (
        key ∷ keys,
        rw (issued, rest) (λ i. some (key ∷ keys, record h { action_index = same i })),
        omega arith,
        cc (path, paths),
      )

  -- While the index fits 32 bits and the derivations succeed, `n` calls of `next_action_key` give
  -- `n` keys whose paths are pairwise distinct, and leave the index `n` higher.
  pub issue-Distinct :
      (n : ℕ) (h : KeyHierarchy C)
      → h.action_index + n < 2 ^ 32
      → Derivable h.root h.action_index n
      → (keys : List DerivedKey) × (last : KeyHierarchy C) × (issue n h ≡ some (keys, last))
        × (length keys ≡ n)
        × Distinct (map (λ k. k.path) keys)
        × (last.action_index ≡ h.action_index + n)
  issue-Distinct n h fits ok =
      let (keys, run, many, paths) = issue_lem n h fits ok in
      (
        keys,
        record h { action_index = h.action_index + n },
        run,
        many,
        rw paths (action_paths-Distinct h.action_index n fits),
        refl,
      )
