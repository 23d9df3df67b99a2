-- ===== src/Monitor/EventLog/Injective.antt =====
-- `EventLog::export_json` (src/monitor/mod.rs) on logs whose metadata have no quote: the text
-- determines the log.
use text.Mathlib.TextLemmas
use huntkey.Prelude.{
  ℕ, ◌≡◌, ◌≢◌, ◌∙◌, ◌<◌, refl, sym, ap, Bool, true, false, String, ◌<>◌, List, [], ◌∷◌, All, arith,
  if◌then◌else◌, ◌==◌, IsU64,
}
use Prim.Native.Char.{code}
use huntkey.Prelude.Bytes.{Bytes}
use huntkey.Prelude.Decimal.{to_decimal, codes, codes-to_decimal_inj, to_decimal-Free}
use huntkey.Prelude.Texts.{Free, lacks-Free, differ, split}
use huntkey.Monitor.EventLog.{
  EventType, intent_executed, session_invalidated, recovery_state_changed, delegation_endorsed,
  high_value_intent, EventLogEntry, EventLog, debug_name, json_metadata, json_entry, json_entries,
  export_json,
}
use huntkey.Monitor.EventLog.Metadata.{IsPlain, close, json_metadata_inj}

-- What `hex::encode` promises: of bytes it writes a text that determines them, with no quote.
pub record IsHex (hex : Bytes → String) : Type 0 where
  pub hex_inj : (a b : Bytes) → All (λ x. x < 256) a → All (λ x. x < 256) b → hex a ≡ hex b → a ≡ b
  pub hex-Free : (a : Bytes) → All (λ x. x < 256) a → Free 34 (hex a)

-- The entry's numbers are of 64 bits, its identity holds bytes, and its metadata have no quote.
pub record IsPlainEntry (e : EventLogEntry) : Type 0 where
  pub identity : All (λ x. x < 256) e.identity
  pub block_number : IsU64 e.block_number
  pub timestamp : IsU64 e.timestamp
  pub metadata : All IsPlain e.metadata

-- The event type whose name begins with the text's first letter.
read_type : String → EventType
read_type String.[] = high_value_intent
read_type (String.◌∷◌ c s) =
    if code c == b'I'
    then intent_executed
    else if code c == b'S'
    then session_invalidated
    else if code c == b'R'
    then recovery_state_changed
    else if code c == b'D'
    then delegation_endorsed
    else high_value_intent

read_type-debug_name : (ty : EventType) → read_type (debug_name ty) ≡ ty
unfolding read_type debug_name
read_type-debug_name intent_executed = refl
read_type-debug_name session_invalidated = refl
read_type-debug_name recovery_state_changed = refl
read_type-debug_name delegation_endorsed = refl
read_type-debug_name high_value_intent = refl

debug_name-Free : (ty : EventType) → Free 34 (debug_name ty)
unfolding debug_name
debug_name-Free intent_executed = lacks-Free 34 (debug_name intent_executed) refl
debug_name-Free session_invalidated = lacks-Free 34 (debug_name session_invalidated) refl
debug_name-Free recovery_state_changed = lacks-Free 34 (debug_name recovery_state_changed) refl
debug_name-Free delegation_endorsed = lacks-Free 34 (debug_name delegation_endorsed) refl
debug_name-Free high_value_intent = lacks-Free 34 (debug_name high_value_intent) refl

pub to_decimal_inj : {m n : ℕ} → IsU64 m → IsU64 n → to_decimal m ≡ to_decimal n → m ≡ n
to_decimal_inj h k e = codes-to_decimal_inj (omega arith) (omega arith) (ap codes e)

module _ (hex : Bytes → String) where
  -- The text of an entry with a rest behind it.
  entry_text : EventLogEntry → String → String
  entry_text e rest =
      "  {\n"
      <> ("    \"event_type\": \""
          <> (debug_name e.event_type
              <> ("\",\n"
                  <> ("    \"identity\": \"0x"
                      <> (hex e.identity
                          <> ("\",\n"
                              <> ("    \"block_number\": "
                                  <> (to_decimal e.block_number
                                      <> (",\n"
                                          <> ("    \"timestamp\": "
                                              <> (to_decimal e.timestamp
                                                  <> (",\n"
                                                      <> ("    \"metadata\": {"
                                                          <> (json_metadata true e.metadata
                                                            <> (close <> rest)))))))))))))))

  json_entry-entry_text :
      (e : EventLogEntry) (rest : String) → json_entry hex e <> rest ≡ entry_text e rest
  unfolding json_entry entry_text close
  json_entry-entry_text e rest = simp TextLemmas.append_assoc

  entry_text_inj :
      IsHex hex
      → (e e' : EventLogEntry) (rest rest' : String) → IsPlainEntry e
      → IsPlainEntry e'
      → entry_text e rest ≡ entry_text e' rest'
      → (e ≡ e') × (rest ≡ rest')
  unfolding entry_text
  entry_text_inj L e e' rest rest' h h' same =
      let cut = λ (s x y : String). TextLemmas.append_cancel_left s x y in
      let (types, s₁) =
        split "\"" ",\n" (debug_name e.event_type) (debug_name e'.event_type) _ _
          (debug_name-Free e.event_type) (debug_name-Free e'.event_type)
          (cut "    \"event_type\": \"" _ _ (cut "  {\n" _ _ same)) in
      let (identities, s₂) =
        split "\"" ",\n" (hex e.identity) (hex e'.identity) _ _ (L.hex-Free e.identity h.identity)
          (L.hex-Free e'.identity h'.identity) (cut "    \"identity\": \"0x" _ _ s₁) in
      let (blocks, s₃) =
        split "," "\n" (to_decimal e.block_number) (to_decimal e'.block_number) _ _
          (to_decimal-Free 44 e.block_number (omega arith))
          (to_decimal-Free 44 e'.block_number (omega arith))
          (cut "    \"block_number\": " _ _ s₂) in
      let (times, s₄) =
        split "," "\n" (to_decimal e.timestamp) (to_decimal e'.timestamp) _ _
          (to_decimal-Free 44 e.timestamp (omega arith))
          (to_decimal-Free 44 e'.timestamp (omega arith)) (cut "    \"timestamp\": " _ _ s₃) in
      let (members, rests) =
        json_metadata_inj true e.metadata e'.metadata rest rest' h.metadata h'.metadata
          (cut "    \"metadata\": {" _ _ s₄) in
      let event_type =
        sym (read_type-debug_name e.event_type)
        ∙ ap read_type types
        ∙ read_type-debug_name e'.event_type in
      let identity = L.hex_inj e.identity e'.identity h.identity h'.identity identities in
      let block_number = to_decimal_inj h.block_number h'.block_number blocks in
      let timestamp = to_decimal_inj h.timestamp h'.timestamp times in
      (
        λ i. record {
          event_type = event_type i;
          identity = identity i;
          block_number = block_number i;
          timestamp = timestamp i;
          metadata = members i;
        },
        rests,
      )

  json_entries-cons :
      (first : Bool) (e : EventLogEntry) (es : List EventLogEntry)
      → json_entries hex first (e ∷ es) <> "\n]"
        ≡ (if first then "" else ",\n") <> entry_text e (json_entries hex false es <> "\n]")
  unfolding json_entries
  json_entries-cons first e es =
      TextLemmas.append_assoc (if first then "" else ",\n") _ "\n]"
      ∙ ap (λ s. (if first then "" else ",\n") <> s)
          (TextLemmas.append_assoc (json_entry hex e) _ "\n]" ∙ json_entry-entry_text e _)

  -- An entry does not begin as the end of the array does.
  not_ended :
      (first : Bool) (e : EventLogEntry) (rest : String)
      → "\n]" ≢ (if first then "" else ",\n") <> entry_text e rest
  unfolding entry_text
  not_ended false e rest same =
      differ "\n" "," "]" "\n" "" _ (λ h. absurd (omega arith)) (TextLemmas.append-nil "\n]" ∙ same)
  not_ended true e rest same =
      differ "\n" " " "]" " {\n" "" _ (λ h. absurd (omega arith))
        (TextLemmas.append-nil "\n]" ∙ same ∙ TextLemmas.nil-append _)

  nothing : (first : Bool) → "\n]" ≡ json_entries hex first [] <> "\n]"
  unfolding json_entries
  nothing first = sym (TextLemmas.nil-append "\n]")

  json_entries_inj :
      IsHex hex
      → (first : Bool) (es es' : List EventLogEntry) → All IsPlainEntry es
      → All IsPlainEntry es'
      → json_entries hex first es <> "\n]" ≡ json_entries hex first es' <> "\n]"
      → es ≡ es'
  json_entries_inj L first [] [] h h' same = refl
  json_entries_inj L first [] (e ∷ es) h h' same =
      absurd (not_ended first e _ (nothing first ∙ same ∙ json_entries-cons first e es))
  json_entries_inj L first (e ∷ es) [] h h' same =
      absurd (not_ended first e _ (nothing first ∙ sym same ∙ json_entries-cons first e es))
  json_entries_inj L first (e ∷ es) (e' ∷ es') (h, hs) (h', hs') same =
      let (here, rests) = entry_text_inj L e e' _ _ h h' (
        TextLemmas.append_cancel_left (if first then "" else ",\n") _ _
          (sym (json_entries-cons first e es) ∙ same ∙ json_entries-cons first e' es')) in
      let later = json_entries_inj L false es es' hs hs' rests in λ i. here i ∷ later i

  -- Two logs whose entries have 64-bit numbers, identities of bytes and metadata without a quote
  -- are the same log if their exports are the same text.
  pub export_json_inj :
      IsHex hex
      → (log log' : EventLog) → All IsPlainEntry log.entries
      → All IsPlainEntry log'.entries
      → export_json hex log ≡ export_json hex log'
      → log ≡ log'
  unfolding export_json
  export_json_inj L log log' h h' same =
      let entries =
        json_entries_inj L true log.entries log'.entries h h'
          (TextLemmas.append_cancel_left "[\n" _ _ same) in
      λ i. record { entries = entries i }
