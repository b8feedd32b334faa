-- ===== src/Partition/Cut.antt =====
-- The cutting loops of FileSystem/src/filetable.c write every byte of the source to the block file,
-- in order, in blocks that the file records.
use tp_2017_2c_yatpos.Base.{
  ℕ, zero, suc, ◌+◌, ◌*◌, ◌^◌, ◌≤◌, ◌<◌, ◌≡◌, refl, ap, sym, ◌∙◌, inl, inr, List, [], ◌∷◌, ◌++◌,
  Option, some, arith, length, take, set, All, All-append, All-set, append_assoc, append-nil,
  length-append, length-set, ltb, if◌then◌else◌, Bool-cases, lt→ltb, ltb→lt,
}
use mathlib.Core.List.{flatten}
use tp_2017_2c_yatpos.Base.Int.{pos}
use tp_2017_2c_yatpos.Serial.Words.{Bytes}
use tp_2017_2c_yatpos.Yfile.{Block, yfile_addblock}
use tp_2017_2c_yatpos.Partition.{
  Output, Cutting, new_block, flush, make_room, append_piece, handle, cut, overlay,
}
use tp_2017_2c_yatpos.Partition.Overlay.{contents, contents-snoc, length-overlay, take-overlay}

-- How many blocks the pieces still need, with `size` bytes in the buffer.
abbrev pub block_of : ℕ → ℕ
block_of zero = 0
block_of (suc k) = 1

module _ (block_size : ℕ) where
  unfoldable pub needed : ℕ → ℕ → List Bytes → ℕ
  needed extra size [] = block_of size
  needed extra size (p ∷ ps) =
      if ltb block_size (size + (length p + extra))
      then block_of size + needed extra (0 + length p) ps
      else needed extra (size + length p) ps

  abbrev pub InBlock : Block → Type 0
  InBlock b = (0 < b.size) × (b.size ≤ block_size)

  abbrev pub IsBlock : Bytes → Type 0
  IsBlock t = length t ≡ block_size

  -- The output `o`, and `size` bytes of the buffer, hold the text `done`.
  pub record Holds (n : ℕ) (buffer : Bytes) (size count : ℕ) (o : Output) (done : Bytes)
      : Type 0 where
    pub buffer_size : length buffer ≡ block_size
    pub size_le : size ≤ block_size
    pub counted : count ≡ length o.file.blocks
    pub text : contents o.file.blocks o.target ++ take size buffer ≡ done
    pub sizes : All InBlock o.file.blocks
    pub room : length o.target ≡ n
    pub small : n * block_size < 2 ^ 31
    pub targets : All IsBlock o.target

  abbrev pub at : Bytes → ℕ → ℕ → Output → Cutting
  at buffer size count o = record { buffer = buffer; size = size; count = count; output = some o }

  -- The output after the buffer has been written to the next block.
  abbrev pub next_output : Bytes → ℕ → ℕ → Output → Output
  next_output buffer zero count o = o
  next_output buffer (suc k) count o = record {
    target = set o.target count buffer;
    file = yfile_addblock o.file (new_block (suc k));
  }

  pub flush_lem :
      (buffer : Bytes) (size count : ℕ) (o : Output)
      → count + block_of size ≤ length o.target
      → length o.target * block_size < 2 ^ 31
      → flush block_size (at buffer size count o)
        ≡ some (at buffer size (count + block_of size) (next_output buffer size count o))
  unfolding flush
  flush_lem buffer zero count o h small = refl
  flush_lem buffer (suc k) count o h small = ground (arith, before count (length o.target) h)
    where
      before : (a b : ℕ) → a + 1 ≤ b → a * block_size ≤ b * block_size
      before a b q = grind arith

  flush-Holds :
      {n : ℕ} (buffer : Bytes) (size count : ℕ) (o : Output) {done : Bytes}
      → count + block_of size ≤ length o.target
      → Holds n buffer size count o done
      → Holds n buffer 0 (count + block_of size) (next_output buffer size count o) done
  unfolding yfile_addblock
  flush-Holds buffer zero count o h inv = record {
    buffer_size = inv.buffer_size;
    size_le = inv.size_le;
    counted = omega (arith, inv.counted);
    text = inv.text;
    sizes = inv.sizes;
    room = inv.room;
    small = inv.small;
    targets = inv.targets;
  }
  flush-Holds buffer (suc k) count o h inv = record {
    buffer_size = inv.buffer_size;
    size_le = omega arith;
    counted = omega (arith, inv.counted, length-append o.file.blocks (new ∷ []));
    text =
        append-nil _
        ∙ ap (λ c. contents (o.file.blocks ++ new ∷ []) (set o.target c buffer)) inv.counted
        ∙ contents-snoc o.file.blocks o.target new buffer (omega (arith, inv.counted))
        ∙ inv.text;
    sizes = All-append InBlock o.file.blocks (new ∷ []) inv.sizes ((omega arith, inv.size_le), tt);
    room = length-set o.target count buffer ∙ inv.room;
    small = inv.small;
    targets = All-set IsBlock o.target count buffer inv.targets inv.buffer_size;
  }
    where
      new : Block
      new = record (new_block (suc k)) { index = pos (length o.file.blocks) }

  append-Holds :
      {n : ℕ} (terminator piece buffer : Bytes) (size count : ℕ) (o : Output) {done : Bytes}
      → size + length piece ≤ block_size
      → Holds n buffer size count o done
      → Holds n
          (overlay size (piece ++ terminator) buffer)
          (size + length piece)
          count
          o
          (done ++ piece)
  append-Holds terminator piece buffer size count o {done} h inv = record {
    buffer_size = length-overlay size (piece ++ terminator) buffer ∙ inv.buffer_size;
    size_le = h;
    counted = inv.counted;
    text =
        ap (◌++◌ (contents o.file.blocks o.target))
          (take-overlay size piece terminator buffer (omega (arith, inv.buffer_size)))
        ∙ sym (append_assoc _ (take size buffer) piece)
        ∙ ap (λ t. t ++ piece) inv.text;
    sizes = inv.sizes;
    room = inv.room;
    small = inv.small;
    targets = inv.targets;
  }

  make_room_lem :
      (need : ℕ) (buffer : Bytes) (size count : ℕ) (o : Output)
      → block_size < size + need
      → count + block_of size ≤ length o.target
      → length o.target * block_size < 2 ^ 31
      → make_room block_size need (at buffer size count o)
        ≡ some (at buffer 0 (count + block_of size) (next_output buffer size count o))
  unfolding make_room
  make_room_lem need buffer size count o over h small =
      rw (lt→ltb _ _ over, flush_lem buffer size count o h small, make_room)

  -- A piece that does not fit behind what is in the buffer goes to the next block.
  pub handle_flushes :
      (terminator piece buffer : Bytes) (size count : ℕ) (o : Output)
      → block_size < size + (length piece + length terminator)
      → length piece + length terminator ≤ block_size
      → count + block_of size ≤ length o.target
      → length o.target * block_size < 2 ^ 31
      → handle block_size terminator (at buffer size count o) piece
        ≡ some (
            at
              (overlay 0 (piece ++ terminator) buffer)
              (0 + length piece)
              (count + block_of size)
              (next_output buffer size count o))
  unfolding handle append_piece
  handle_flushes terminator piece buffer size count o over fits h small =
      rw (make_room_lem _ buffer size count o over h small, handle) (ground arith)

  pub handle_appends :
      (terminator piece buffer : Bytes) (size count : ℕ) (o : Output)
      → size + (length piece + length terminator) ≤ block_size
      → handle block_size terminator (at buffer size count o) piece
        ≡ some (at (overlay size (piece ++ terminator) buffer) (size + length piece) count o)
  unfolding handle make_room append_piece
  handle_appends terminator piece buffer size count o fits = ground arith

  -- The output holds exactly `done`, in blocks of at most `block_size` bytes, none of them empty.
  pub record Written (n : ℕ) (o : Output) (done : Bytes) : Type 0 where
    pub text : contents o.file.blocks o.target ≡ done
    pub sizes : All InBlock o.file.blocks
    pub room : length o.target ≡ n
    pub targets : All IsBlock o.target

  -- A run of the cutting loop that came to its end with `total` blocks.
  pub record Cuts (n : ℕ) (r : Option Cutting) (done : Bytes) (total : ℕ) : Type 0 where
    pub after : Cutting
    pub output : Output
    pub ran : r ≡ some after
    pub wrote : after.output ≡ some output
    pub returned : after.count ≡ total
    pub blocks : length output.file.blocks ≡ total
    pub written : Written n output done

  pub needed_over :
      (extra size : ℕ) (p : Bytes) (ps : List Bytes)
      → block_size < size + (length p + extra)
      → needed extra size (p ∷ ps) ≡ block_of size + needed extra (0 + length p) ps
  unfolding needed
  needed_over extra size p ps h = rw (lt→ltb _ _ h)

  pub needed_fits :
      (extra size : ℕ) (p : Bytes) (ps : List Bytes)
      → size + (length p + extra) ≤ block_size
      → needed extra size (p ∷ ps) ≡ needed extra (size + length p) ps
  unfolding needed
  needed_fits extra size p ps h = ground arith

  pub along :
      {n : ℕ} {r r' : Option Cutting} {text text' : Bytes} {total total' : ℕ}
      → Cuts n r text total
      → r' ≡ r
      → text ≡ text'
      → total ≡ total'
      → Cuts n r' text' total'
  along c e f g = record {
    after = c.after;
    output = c.output;
    ran = e ∙ c.ran;
    wrote = c.wrote;
    returned = c.returned ∙ g;
    blocks = c.blocks ∙ g;
    written = record {
      text = c.written.text ∙ f;
      sizes = c.written.sizes;
      room = c.written.room;
      targets = c.written.targets;
    };
  }

  module _ (terminator : Bytes) where
    abbrev pub Fits : Bytes → Type 0
    Fits p = length p + length terminator ≤ block_size

    cut-nil :
        {n : ℕ} (buffer : Bytes) (size count : ℕ) (o : Output) {done : Bytes}
        → Holds n buffer size count o done
        → count + block_of size ≤ n
        → Cuts n
            (cut block_size terminator (at buffer size count o) [])
            done
            (count + block_of size)
    unfolding cut
    cut-nil {n} buffer size count o {done} inv h = record {
      after = at buffer size (count + block_of size) (next_output buffer size count o);
      output = next_output buffer size count o;
      ran = flush_lem buffer size count o (omega (arith, inv.room)) (rw inv.room inv.small);
      wrote = refl;
      returned = refl;
      blocks = sym flushed.counted;
      written = record {
        text = sym (append-nil _) ∙ flushed.text;
        sizes = flushed.sizes;
        room = flushed.room;
        targets = flushed.targets;
      };
    }
      where
        flushed : Holds n buffer 0 (count + block_of size) (next_output buffer size count o) done
        flushed = flush-Holds buffer size count o (omega (arith, inv.room)) inv

    pub cut-Cuts :
        {n : ℕ} (ps : List Bytes) (buffer : Bytes) (size count : ℕ) (o : Output) (done : Bytes)
        → Holds n buffer size count o done
        → All Fits ps
        → count + needed (length terminator) size ps ≤ n
        → Cuts n
            (cut block_size terminator (at buffer size count o) ps)
            (done ++ flatten ps)
            (count + needed (length terminator) size ps)
    unfolding cut needed flatten
    cut-Cuts [] buffer size count o done inv fits h =
        rw (append-nil done) (cut-nil buffer size count o inv h)
    cut-Cuts (p ∷ ps) buffer size count o done inv fits h =
        elim (Bool-cases (ltb block_size (size + (length p + length terminator)))) [
          | inl e ↦
              let over : block_size < size + (length p + length terminator) = ltb→lt _ _ e in
              along
                (cut-Cuts ps (overlay 0 (p ++ terminator) buffer) (0 + length p)
                  (count + block_of size) (next_output buffer size count o) (done ++ p)
                  (append-Holds terminator p buffer 0 (count + block_of size)
                    (next_output buffer size count o) (omega (arith, fits.0))
                    (flush-Holds buffer size count o
                      (omega (arith, inv.room, needed_over (length terminator) size p ps over))
                      inv))
                  fits.1 (omega (arith, needed_over (length terminator) size p ps over)))
                (rw (
                  handle_flushes terminator p buffer size count o over fits.0
                      (omega (arith, inv.room, needed_over (length terminator) size p ps over))
                      (rw inv.room inv.small),
                  cut,
                ))
                (append_assoc done p (flatten ps))
                (omega (arith, needed_over (length terminator) size p ps over))
          | inr e ↦
              let within : size + (length p + length terminator) ≤ block_size = ground arith in
              along
                (cut-Cuts ps (overlay size (p ++ terminator) buffer) (size + length p) count o
                  (done ++ p) (append-Holds terminator p buffer size count o (omega arith) inv)
                  fits.1 (omega (arith, needed_fits (length terminator) size p ps within)))
                (rw (handle_appends terminator p buffer size count o within, cut))
                (append_assoc done p (flatten ps))
                (omega (arith, needed_fits (length terminator) size p ps within))
        ]
