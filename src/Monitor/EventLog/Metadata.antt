-- ===== src/Monitor/EventLog/Metadata.antt =====
-- The metadata objects of `EventLog::export_json` (src/monitor/mod.rs): without a quote in their
-- keys and values, they can be read back.
use text.Mathlib.TextLemmas
use huntkey.Prelude.{
  ◌≡◌, ◌≢◌, ◌∙◌, refl, sym, Bool, true, false, String, ◌<>◌, List, [], ◌∷◌, All, arith,
  if◌then◌else◌,
}
use huntkey.Prelude.Texts.{Free, differ, split}
use huntkey.Monitor.EventLog.{json_metadata}

-- A member of the metadata without a quote in its key or its value.
abbrev pub IsPlain : String × String → Type 0
IsPlain (key, val) = Free 34 key × Free 34 val

member_text : String → String → String → String
member_text key val rest = "\n      \"" <> (key <> ("\": \"" <> (val <> ("\"" <> rest))))

unfoldable pub close : String
close = "\n    }\n  }"

json_metadata-cons :
    (first : Bool) (key val : String) (kvs : List (String × String)) (rest : String)
    → json_metadata first ((key, val) ∷ kvs) <> rest
      ≡ (if first then "" else ",") <> member_text key val (json_metadata false kvs <> rest)
unfolding json_metadata member_text
json_metadata-cons first key val kvs rest = simp TextLemmas.append_assoc

member_text_inj :
    (key val key' val' rest rest' : String)
    → IsPlain (key, val)
    → IsPlain (key', val')
    → member_text key val rest ≡ member_text key' val' rest'
    → (key ≡ key') × (val ≡ val') × (rest ≡ rest')
unfolding member_text
member_text_inj key val key' val' rest rest' (k, v) (k', v') e =
    let (keys, e₁) =
      split "\"" ": \"" key key' _ _ k k' (TextLemmas.append_cancel_left "\n      \"" _ _ e) in
    let (vals, e₂) = split "\"" "" val val' _ _ v v' e₁ in (keys, vals, e₂)

-- A member does not begin as the end of the metadata does.
not_closed :
    (first : Bool) (key val rest rest' : String)
    → close <> rest ≢ (if first then "" else ",") <> member_text key val rest'
unfolding member_text close
not_closed false key val rest rest' e =
    differ "\n" "," "    }\n  }" "" rest _ (λ h. absurd (omega arith)) e
not_closed true key val rest rest' e =
    differ "}" " " "\n  }" " \"" rest _ (λ h. absurd (omega arith))
      (TextLemmas.append_cancel_left "\n    " _ _ (
        sym (TextLemmas.append_assoc "\n    " "}\n  }" rest)
        ∙ e
        ∙ TextLemmas.nil-append _
        ∙ TextLemmas.append_assoc "\n    " "  \"" _))

-- Equal texts, each a metadata object with its end and a rest, have the same members and rests.
pub json_metadata_inj :
    (first : Bool) (kvs kvs' : List (String × String)) (rest rest' : String)
    → All IsPlain kvs
    → All IsPlain kvs'
    → json_metadata first kvs <> (close <> rest) ≡ json_metadata first kvs' <> (close <> rest')
    → (kvs ≡ kvs') × (rest ≡ rest')
unfolding json_metadata
json_metadata_inj first [] [] rest rest' h h' e =
    (refl, TextLemmas.append_cancel_left close _ _ (TextLemmas.append_cancel_left "" _ _ e))
json_metadata_inj first [] ((key, val) ∷ kvs) rest rest' h h' e = absurd (
    not_closed first key val rest _
      (sym (TextLemmas.nil-append _) ∙ e ∙ json_metadata-cons first key val kvs _))
json_metadata_inj first ((key, val) ∷ kvs) [] rest rest' h h' e = absurd (
    not_closed first key val rest' _
      (sym (TextLemmas.nil-append _) ∙ sym e ∙ json_metadata-cons first key val kvs _))
json_metadata_inj first ((key, val) ∷ kvs) ((key', val') ∷ kvs') rest rest' (h, hs) (h', hs') e =
    let (keys, vals, tails) = member_text_inj key val key' val' _ _ h h' (
      TextLemmas.append_cancel_left (if first then "" else ",") _ _ (
        sym (json_metadata-cons first key val kvs _)
        ∙ e
        ∙ json_metadata-cons first key' val' kvs' _)) in
    let (same, rests) = json_metadata_inj false kvs kvs' rest rest' hs hs' tails in
    (λ i. (keys i, vals i) ∷ same i, rests)
