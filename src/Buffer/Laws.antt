-- ===== src/Buffer/Laws.antt =====
-- One buffer: nothing is lost or reordered, and little is held back.
use mathlib.Core.List.{append-nil, append_assoc}
use rocks_db_wrapper.Base.{
  ℕ, ◌<◌, ◌≡◌, refl, sym, ap, ◌∙◌, ◌⊎◌, inl, inr, Bool, true, false, [], ◌∷◌, ◌++◌, length,
  if◌then◌else◌, leb, arith, lt→ltb,
}
use rocks_db_wrapper.Base.Text.{Text}
use rocks_db_wrapper.Buffer.{
  Buffer, Manip, manip_text, effects, flush_statements, flush_buffer, put, put_manip,
}

-- All that was written to a buffer: what is in the file, then what waits.
abbrev pub contents : Buffer → Text
contents b = b.output_file ++ b.buffer

flush_buffer_fields :
    (pending file : Text) (opened : Bool) (limit : ℕ)
    → flush_buffer
        (record { buffer = pending; output_file = file; is_open = opened; buffer_limit = limit })
      ≡ record {
        buffer = [];
        output_file = file ++ pending;
        is_open = opened;
        buffer_limit = limit;
      }
unfolding flush_buffer
flush_buffer_fields [] file opened limit =
    ap (λ f. record { buffer = []; output_file = f; is_open = opened; buffer_limit = limit })
      (sym (append-nil file))
flush_buffer_fields (x ∷ pending) file opened limit =
    rw (lt→ltb 0 (length (x ∷ pending)) (omega arith))

-- A flush writes out all that waits.
pub flush_buffer_lem :
    (b : Buffer) → flush_buffer b ≡ record b { output_file = contents b; buffer = [] }
flush_buffer_lem b = flush_buffer_fields b.buffer b.output_file b.is_open b.buffer_limit

pub contents-flush_buffer : (b : Buffer) → contents (flush_buffer b) ≡ contents b
contents-flush_buffer b = ap contents (flush_buffer_lem b) ∙ append-nil (contents b)

-- What an insertion does, over the text that it appends.
abbrev inserted : Buffer → Text → Buffer
inserted b text = record b { buffer = b.buffer ++ text }

-- The contents grow by the text, and less than the limit waits, or nothing.
abbrev pub IsInserted : Buffer → Text → Buffer → Type 0
IsInserted b text b' =
    (contents b' ≡ contents b ++ text) × ((length b'.buffer < b.buffer_limit) ⊎ (b'.buffer ≡ []))

insertion :
    (b : Buffer) (text : Text) (full : Bool)
    → leb b.buffer_limit (length (inserted b text).buffer) ≡ full
    → IsInserted b text
        (effects (if full then flush_statements (b.buffer ++ text) else []) (inserted b text))
unfolding flush_buffer
insertion b text true e = (
  contents-flush_buffer (inserted b text) ∙ sym (append_assoc b.output_file b.buffer text),
  inr (ap (λ (x : Buffer). x.buffer) (flush_buffer_lem (inserted b text))),
)
insertion b text false e = (sym (append_assoc b.output_file b.buffer text), inl (ground arith))

-- Inserting text into a buffer makes its contents, the file's and then what waits, longer by this text
-- at the end and changes nothing else in them, and after it less than the limit waits, or nothing.
pub put-IsInserted : (b : Buffer) (text : Text) → IsInserted b text (put b text)
unfolding put
put-IsInserted b text = insertion b text _ refl

-- Inserting a manipulator adds its text in the same way.
pub put_manip-IsInserted :
    (b : Buffer) (manip : Manip) → IsInserted b (manip_text manip) (put_manip b manip)
unfolding put_manip
put_manip-IsInserted b manip = insertion b (manip_text manip) _ refl
