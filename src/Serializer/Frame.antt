-- ===== src/Serializer/Frame.antt =====
-- A serialized event is one line.
use mathlib.Core.List.{cons-ne-nil}
use minilisysm.Prelude.{
  ℕ, zero, suc, ◌+◌, ◌<◌, min, ◌≡◌, refl, true, List, [], ◌∷◌, ◌++◌, ℤ, pos, negsuc, Bytes, codes,
  length, take, arith,
}
use minilisysm.Prelude.Framing.{newline_free, newline_free-append, IsLine}
use minilisysm.Prelude.Decimal.{to_string, decimal, IsDigits, decimal-IsDigits}
use minilisysm.Event.{EvidenceItem, InternalEvent, max_evidence}
use minilisysm.Config.{MonitorConfig}
use minilisysm.Serializer.{
  escape, escape_text, json_string, field_name, text_field, int_field, concat, double_text,
  evidence_entry, more_evidence, evidence_text, pieces, to_json_line, level_to_string,
  status_to_string, type_to_string,
}

newline_free-escape : (c : ℕ) → newline_free (escape c) ≡ true
unfolding escape
newline_free-escape c = ground arith

newline_free-escape_text : (s : Bytes) → newline_free (escape_text s) ≡ true
unfolding escape_text
newline_free-escape_text [] = refl
newline_free-escape_text (c ∷ s) =
    newline_free-append (escape c) (escape_text s) (newline_free-escape c)
      (newline_free-escape_text s)

newline_free-json_string : (s : Bytes) → newline_free (json_string s) ≡ true
unfolding json_string
newline_free-json_string s =
    newline_free-append (escape_text s) (b'"' ∷ []) (newline_free-escape_text s) refl

newline_free-digits : (s : Bytes) → IsDigits s → newline_free s ≡ true
newline_free-digits [] h = refl
newline_free-digits (c ∷ s) h = ground (arith, newline_free-digits s h.2)

newline_free-to_string : (z : ℤ) → newline_free (to_string z) ≡ true
unfolding to_string
newline_free-to_string (pos n) = newline_free-digits (decimal 20 n []) (decimal-IsDigits 20 n [] tt)
newline_free-to_string (negsuc n) =
    newline_free-digits (decimal 20 (n + 1) []) (decimal-IsDigits 20 (n + 1) [] tt)

-- A field whose name has no newline, before a value that has none.
newline_free-field :
    (name value : Bytes)
    → newline_free name ≡ true
    → newline_free value ≡ true
    → newline_free (field_name name ++ value) ≡ true
newline_free-field name value hn hv =
    newline_free-append (field_name name) value
      (newline_free-append name (b'"' ∷ b':' ∷ []) hn refl) hv

newline_free-text_field :
    (name value : Bytes) → newline_free name ≡ true → newline_free (text_field name value) ≡ true
newline_free-text_field name value hn =
    newline_free-field name (json_string value) hn (newline_free-json_string value)

newline_free-int_field :
    (name : Bytes) (value : ℤ)
    → newline_free name ≡ true
    → newline_free (int_field name value) ≡ true
newline_free-int_field name value hn =
    newline_free-field name (to_string value) hn (newline_free-to_string value)

infixr 30 ◌&◌
data AllFree : List Bytes → Type 0 where
  all_free : AllFree []
  ◌&◌ :
      {piece : Bytes} {pieces : List Bytes}
      → newline_free piece ≡ true
      → AllFree pieces
      → AllFree (piece ∷ pieces)

newline_free-concat : {pieces : List Bytes} → AllFree pieces → newline_free (concat pieces) ≡ true
newline_free-concat all_free = refl
newline_free-concat {pieces = piece ∷ pieces} (h & hs) =
    newline_free-append piece (concat pieces) h (newline_free-concat hs)

module _ {W : Type 0} (print : W → Bytes) (beyond : ℕ → Bytes) where
  -- A number that fits the buffer and is printed without a newline.
  abbrev pub IsShort : W → Type 0
  IsShort value = (length (print value) < 64) × (newline_free (print value) ≡ true)

  abbrev pub AllShort : List (EvidenceItem W) → Type 0
  AllShort [] = Unit
  AllShort (item ∷ items) = IsShort item.value × AllShort items

  newline_free-double_text :
      (value : W) → IsShort value → newline_free (double_text print beyond value) ≡ true
  unfolding double_text
  newline_free-double_text value h = ground arith

  newline_free-evidence_entry :
      (item : EvidenceItem W)
      → IsShort item.value
      → newline_free (evidence_entry print beyond item) ≡ true
  newline_free-evidence_entry item h =
      newline_free-append (json_string item.key) (b':' ∷ double_text print beyond item.value)
        (newline_free-json_string item.key) (newline_free-double_text item.value h)

  newline_free-more_evidence :
      (items : List (EvidenceItem W))
      → AllShort items
      → newline_free (more_evidence print beyond items) ≡ true
  unfolding more_evidence
  newline_free-more_evidence [] h = refl
  newline_free-more_evidence (item ∷ items) h =
      newline_free-append (evidence_entry print beyond item) (more_evidence print beyond items)
        (newline_free-evidence_entry item h.0) (newline_free-more_evidence items h.1)

  AllShort-take : (n : ℕ) (items : List (EvidenceItem W)) → AllShort items → AllShort (take n items)
  AllShort-take zero items h = tt
  AllShort-take (suc n) [] h = tt
  AllShort-take (suc n) (item ∷ items) h = (h.0, AllShort-take n items h.1)

  newline_free-evidence_text :
      (items : List (EvidenceItem W))
      → AllShort items
      → newline_free (evidence_text print beyond items) ≡ true
  unfolding evidence_text
  newline_free-evidence_text [] h = refl
  newline_free-evidence_text (item ∷ items) h =
      newline_free-append (evidence_entry print beyond item) (more_evidence print beyond items)
        (newline_free-evidence_entry item h.0) (newline_free-more_evidence items h.1)

  -- The numbers of an event are short.
  abbrev pub IsPrintable : InternalEvent W → Type 0
  IsPrintable event =
      IsShort event.value
      × IsShort event.warning_threshold
      × IsShort event.critical_threshold
      × AllShort event.evidence

  pieces-AllFree :
      (config : MonitorConfig W) (event : InternalEvent W)
      → IsPrintable event
      → AllFree (pieces print beyond config event)
  unfolding pieces
  pieces-AllFree config event h =
      refl
      & newline_free-escape_text config.device_id
      & newline_free-append (to_string (pos event.sequence)) (b'"' ∷ [])
          (newline_free-to_string (pos event.sequence)) refl
      & newline_free-text_field (codes "device_id") config.device_id refl
      & newline_free-text_field (codes "platform") config.platform refl
      & newline_free-text_field (codes "software_version") config.software_version refl
      & newline_free-text_field (codes "config_version") config.config_version refl
      & newline_free-int_field (codes "timestamp_ms") (pos event.realtime_ms) refl
      & newline_free-int_field (codes "monotonic_ms") (pos event.monotonic_ms) refl
      & newline_free-int_field (codes "boottime_ms") (pos event.boottime_ms) refl
      & newline_free-text_field (codes "module") (codes "linux_stability_monitor") refl
      & newline_free-int_field (codes "rule_id") (pos event.rule_id) refl
      & newline_free-text_field (codes "event_type") (type_to_string event.event_type) refl
      & newline_free-text_field (codes "level") (level_to_string event.level) refl
      & newline_free-text_field (codes "status") (status_to_string event.status) refl
      & newline_free-text_field (codes "target") event.target refl
      & newline_free-int_field (codes "pid") event.pid refl
      & newline_free-int_field (codes "tid") event.tid refl
      & newline_free-field (codes "value") (double_text print beyond event.value) refl
          (newline_free-double_text event.value h.0)
      & newline_free-field (codes "warning_threshold")
          (double_text print beyond event.warning_threshold) refl
          (newline_free-double_text event.warning_threshold h.1)
      & newline_free-field (codes "critical_threshold")
          (double_text print beyond event.critical_threshold) refl
          (newline_free-double_text event.critical_threshold h.2)
      & newline_free-int_field (codes "window_sec") (pos event.window_sec) refl
      & newline_free-int_field (codes "continuous_hit_count") (pos event.continuous_hit_count) refl
      & newline_free-int_field (codes "first_seen_ms") (pos event.first_seen_ms) refl
      & newline_free-int_field (codes "last_seen_ms") (pos event.last_seen_ms) refl
      & newline_free-int_field (codes "hit_count") (pos event.hit_count) refl
      & refl
      & newline_free-evidence_text (take (min event.evidence_count max_evidence) event.evidence)
          (AllShort-take (min event.evidence_count max_evidence) event.evidence h.3)
      & refl
      & all_free

  -- The line of an event is one line: a text that is not empty and has no newline, and a newline at
  -- the end. Whatever the strings of the configuration and of the event are; its numbers are
  -- printed in less than 64 bytes, which are no newlines.
  pub to_json_line-IsLine :
      (config : MonitorConfig W) (event : InternalEvent W)
      → IsPrintable event
      → IsLine (to_json_line print beyond config event)
  unfolding to_json_line pieces
  to_json_line-IsLine config event h = (
    concat (pieces print beyond config event),
    refl,
    newline_free-concat (pieces-AllFree config event h),
    λ e. cons-ne-nil _ _ e,
  )
