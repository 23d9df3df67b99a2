-- ===== src/Monitor/EventLog/Json.antt =====
-- `EventLog::export_json` (src/monitor/mod.rs): what a reader of the exported text can rely on.
use text.Mathlib.TextLemmas
use huntkey.Prelude.{
  ℕ, ◌≡◌, ◌≢◌, refl, ap, Bool, true, false, none, some, String, ◌<>◌, List, [], ◌∷◌, ◌++◌, length,
  append_inj, arith,
}
use huntkey.Prelude.Bytes.{Bytes}
use huntkey.Monitor.EventLog.{
  EventLogEntry, EventLog, record_entry, guardian_metadata, record_recovery_state_changed,
  json_metadata, json_entry, json_entries, export_json,
}

-- The text of a state that goes on, past its closing quote, with a guardian.
abbrev pub forged : (Bytes → String) → String → Bytes → String
forged hex state g =
    state <> ("\"" <> ("," <> ("\n      \"" <> ("guardian" <> ("\": \"" <> ("0x" <> hex g))))))

json_metadata-forged :
    (hex : Bytes → String) (state : String) (g : Bytes)
    → json_metadata true (("new_state", forged hex state g) ∷ [])
      ≡ json_metadata true (("new_state", state) ∷ ("guardian", "0x" <> hex g) ∷ [])
unfolding json_metadata
json_metadata-forged hex state g = simp TextLemmas.append_assoc

json_entries_last :
    (hex : Bytes → String) (first : Bool) (xs : List EventLogEntry) (e e' : EventLogEntry)
    → json_entry hex e ≡ json_entry hex e'
    → json_entries hex first (xs ++ e ∷ []) ≡ json_entries hex first (xs ++ e' ∷ [])
unfolding json_entries
json_entries_last hex first [] e e' h = rw h refl
json_entries_last hex first (x ∷ xs) e e' h = rw (json_entries_last hex false xs e e' h) refl

-- The members of the first entry's metadata.
first_width : List EventLogEntry → ℕ
first_width [] = 0
first_width (e ∷ es) = length e.metadata

-- The export does not escape the metadata: two logs that differ, one with a guardian and one with
-- a state text that spells that guardian, have the same export.
pub export_json-forged :
    (hex : Bytes → String) (log : EventLog) (identity : Bytes) (state : String) (g : Bytes)
    (block timestamp : ℕ)
    → (export_json hex
          (record_recovery_state_changed hex log identity (forged hex state g) none block timestamp)
        ≡ export_json hex
            (record_recovery_state_changed hex log identity state (some g) block timestamp))
      × (record_recovery_state_changed hex log identity (forged hex state g) none block timestamp
          ≢ record_recovery_state_changed hex log identity state (some g) block timestamp)
unfolding export_json record_recovery_state_changed record_entry guardian_metadata json_entry
    first_width
export_json-forged hex log identity state g block timestamp = (
  ap (λ s. "[\n" <> (s <> "\n]"))
      (json_entries_last hex true log.entries _ _ (rw (json_metadata-forged hex state g) refl)),
  λ e.
      let h : 1 ≡ 2 =
        ap first_width (append_inj log.entries log.entries _ _ refl (ap (λ l. l.entries) e)).1 in
      absurd (omega arith),
)
