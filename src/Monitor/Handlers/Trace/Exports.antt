-- ===== src/Monitor/Handlers/Trace/Exports.antt =====
-- The exported event log after a run of the watcher (src/monitor/mod.rs).
use huntkey.Prelude.{
  ℕ, ◌≡◌, ◌<◌, ◌||◌, refl, sym, Option, none, some, String, ◌<>◌, List, [], ◌∷◌, All, All-append,
  IsU64, Bool-cases, inl, inr, ltb, ◌==◌, arith,
}
use mathlib.Core.Path.{subst}
use huntkey.Prelude.Bytes.{Bytes}
use huntkey.Prelude.Decimal.{to_decimal-Free}
use huntkey.Prelude.Texts.{Free, Free-append, lacks-Free}
use huntkey.Monitor.EventLog.{export_json}
use huntkey.Monitor.EventLog.Injective.{IsHex, IsPlainEntry, export_json_inj}
use huntkey.Monitor.Handlers.Trace.{
  Event, guardians, delegate, recovery, delegation, session, intent, offline, high_value, drain,
  Trace, run,
}
use huntkey.Monitor.Handlers.Trace.Records.{entries_of, threshold_of, logs, log_of, run-log}

abbrev AreBytes : Bytes → Type 0
AreBytes = All (λ x. x < 256)

abbrev AreOptionalBytes : Option Bytes → Type 0
AreOptionalBytes none = Unit
AreOptionalBytes (some g) = AreBytes g

-- What a logged call has to keep to: addresses and selectors of bytes, 64-bit blocks and times, and
-- no quote in the text of a new state.
abbrev pub IsPlainEvent : Event → Type 0
IsPlainEvent (recovery i s g b n) = AreBytes i × Free 34 s × AreOptionalBytes g × IsU64 b × IsU64 n
IsPlainEvent (session i e b n) = AreBytes i × IsU64 b × IsU64 n
IsPlainEvent (intent i k s b n) = AreBytes i × AreBytes k × AreBytes s × IsU64 b × IsU64 n
IsPlainEvent (high_value i k v s b n) = AreBytes i × AreBytes k × AreBytes s × IsU64 b × IsU64 n
IsPlainEvent _ = Unit

module _ (hex : Bytes → String) (L : IsHex hex) where
  hex_text-Free : (bytes : Bytes) → AreBytes bytes → Free 34 ("0x" <> hex bytes)
  hex_text-Free bytes h =
      Free-append 34 "0x" (hex bytes) (lacks-Free 34 "0x" refl) (L.hex-Free bytes h)

  logs-IsPlain :
      (threshold : ℕ) (e : Event) → IsPlainEvent e → All IsPlainEntry (logs hex threshold e)
  logs-IsPlain threshold (recovery i s none b n) (hi, hs, _, hb, hn) = (
    record {
      identity = hi;
      block_number = hb;
      timestamp = hn;
      metadata = ((lacks-Free 34 "new_state" refl, hs), tt);
    },
    tt,
  )
  logs-IsPlain threshold (recovery i s (some g) b n) (hi, hs, hg, hb, hn) = (
    record {
      identity = hi;
      block_number = hb;
      timestamp = hn;
      metadata = (
        (lacks-Free 34 "new_state" refl, hs),
        ((lacks-Free 34 "guardian" refl, hex_text-Free g hg), tt),
      );
    },
    tt,
  )
  logs-IsPlain threshold (session i e b n) (hi, hb, hn) = (
    record {
      identity = hi;
      block_number = hb;
      timestamp = hn;
      metadata = ((lacks-Free 34 "new_epoch" refl, to_decimal-Free 34 e (omega arith)), tt);
    },
    tt,
  )
  logs-IsPlain threshold (intent i k s b n) (hi, hk, hs, hb, hn) = (
    record {
      identity = hi;
      block_number = hb;
      timestamp = hn;
      metadata = (
        (lacks-Free 34 "session_key" refl, hex_text-Free k hk),
        ((lacks-Free 34 "selector" refl, hex_text-Free s hs), tt),
      );
    },
    tt,
  )
  logs-IsPlain threshold (high_value i k v s b n) (hi, hk, hs, hb, hn) =
      elim (Bool-cases (threshold == 0 || ltb v threshold)) [
        | inl low ↦ rw low tt
        | inr high ↦ rw high (
          record {
            identity = hi;
            block_number = hb;
            timestamp = hn;
            metadata = (
              (lacks-Free 34 "session_key" refl, hex_text-Free k hk),
              (
                (lacks-Free 34 "selector" refl, hex_text-Free s hs),
                ((lacks-Free 34 "value_wei" refl, to_decimal-Free 34 v (omega arith)), tt),
              ),
            );
          },
          tt,
        )
      ]
  logs-IsPlain threshold (guardians i gs) h = tt
  logs-IsPlain threshold (delegate i d) h = tt
  logs-IsPlain threshold (delegation i d s b n) h = tt
  logs-IsPlain threshold (offline i k b n) h = tt
  logs-IsPlain threshold drain h = tt

  log_of-IsPlain :
      (threshold : ℕ) (es : List Event)
      → All IsPlainEvent es
      → All IsPlainEntry (log_of hex threshold es)
  unfolding log_of
  log_of-IsPlain threshold [] h = tt
  log_of-IsPlain threshold (e ∷ es) (h, hs) =
      All-append IsPlainEntry (logs hex threshold e) (log_of hex threshold es)
        (logs-IsPlain threshold e h) (log_of-IsPlain threshold es hs)

  run-IsPlain :
      (t : Trace) (es : List Event)
      → All IsPlainEntry (entries_of t)
      → All IsPlainEvent es
      → All IsPlainEntry (entries_of (run hex t es))
  run-IsPlain t es h hs = subst (All IsPlainEntry) (sym (run-log hex t es)) (
      All-append IsPlainEntry (entries_of t) (log_of hex (threshold_of t) es) h
        (log_of-IsPlain (threshold_of t) es hs))

  -- Let two runs of the watcher have new states without a quote, addresses and selectors of bytes,
  -- and 64-bit blocks and times, and let the entries logged before them keep to the same. If the
  -- exports of their event logs are the same text, then their event logs are the same.
  pub run-export_inj :
      (t u : Trace) (es es' : List Event)
      → All IsPlainEntry (entries_of t)
      → All IsPlainEntry (entries_of u)
      → All IsPlainEvent es
      → All IsPlainEvent es'
      → export_json hex (run hex t es).watcher.event_log
        ≡ export_json hex (run hex u es').watcher.event_log
      → (run hex t es).watcher.event_log ≡ (run hex u es').watcher.event_log
  run-export_inj t u es es' ht hu hes hes' =
      export_json_inj hex L (run hex t es).watcher.event_log (run hex u es').watcher.event_log
        (run-IsPlain t es ht hes) (run-IsPlain u es' hu hes')
