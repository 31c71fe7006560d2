-- ===== src/Core/Blob/Writing.antt =====
-- The encryptor writes the sealed form of the text, however the writes split it.
use scrigno.Prelude.{
  ℕ, suc, zero, ◌+◌, ◌*◌, ◌-◌, ◌^◌, ◌<◌, ◌≡◌, refl, sym, ap, ◌∙◌, subst, false, some, List, [], ◌∷◌,
  ◌++◌, length, take, drop, min, length-append, length-take, length-drop, take-append-drop,
  append_assoc, append-nil, All, All-append, ltb, ◌==◌, Bool-cases, inl, inr, ok, arith,
}
use scrigno.Prelude.Bytes.{Bytes, join, join-append}
use scrigno.Core.Stream.{Stream, StreamLaws, Writer, Collects}
use scrigno.Core.Blob.{Encryptor, chunk_size, write_full_chunk, write_loop, write, finish}
use scrigno.Core.Blob.Segments.{IsFull, seal_chunks, Seals, seal_chunks-snoc, seal_body-seal_chunks}

-- The texts whose chunks the counter of the stream can number.
abbrev pub Fits : Bytes → Type 0
Fits text = length text < chunk_size * (2 ^ 32 - 1)

module _ {SealState OpenState W : Type 0} (streams : Stream SealState OpenState)
    (laws : StreamLaws streams) (io : Writer W) (col : Collects io) (start : SealState)
    (aad header : Bytes) where
  -- The encryptor has taken `text`: full chunks are written, and the rest is in the buffer.
  pub record Holds (text : Bytes) (self : Encryptor SealState W) : Type 0 where
    pub chunks : List Bytes
    pub done : Bytes
    pub state : SealState
    pub full : All IsFull chunks
    pub stream : self.stream ≡ some state
    pub same_aad : self.aad ≡ aad
    pub whole : text ≡ join chunks ++ self.buf
    pub sealed : seal_chunks streams aad start chunks ≡ some (done, state)
    pub written : col.contents self.writer ≡ header ++ done
    pub counted : laws.position state * chunk_size ≡ length (join chunks)

  -- Between two writes the buffer is never full.
  pub record Wrote (text : Bytes) (self : Encryptor SealState W) : Type 0 where
    pub holds : Holds text self
    pub short : length self.buf < chunk_size

  write_full_chunk_made :
      (self : Encryptor SealState W) (e e' : SealState) (sealed : Bytes)
      → self.stream ≡ some e
      → streams.encrypt_next e self.aad self.buf ≡ some (sealed, e')
      → write_full_chunk streams io self ≡ (
        ok tt,
        record self { writer = (io.write_all sealed self.writer).1; stream = some e'; buf = [] },
      )
  unfolding write_full_chunk
  write_full_chunk_made self e e' sealed h n =
      simp (write_full_chunk, h, n, col.write_all-ok sealed self.writer)

  write_full_chunk-Holds :
      (text : Bytes) (self : Encryptor SealState W)
      → Holds text self
      → IsFull self.buf
      → Fits text
      → ((write_full_chunk streams io self).0 ≡ ok tt)
        × Wrote text (write_full_chunk streams io self).1
  write_full_chunk-Holds text self h full fits =
      let room : laws.position h.state < 2 ^ 32 - 1 =
        omega (arith, ap length h.whole, length-append (join h.chunks) self.buf, h.counted, full) in
      let (sealed, e', n) = laws.encrypts_next h.state aad self.buf room (omega (arith, full)) in
      let n' : streams.encrypt_next h.state self.aad self.buf ≡ some (sealed, e') =
        rw h.same_aad n in
      let more : join (h.chunks ++ self.buf ∷ []) ≡ join h.chunks ++ self.buf =
        unfold join in
        (join-append h.chunks (self.buf ∷ [])
          ∙ ap (λ x. join h.chunks ++ x) (append-nil self.buf)) in
      let self' : Encryptor SealState W = record self {
        writer = (io.write_all sealed self.writer).1;
        stream = some e';
        buf = [];
      } in
      let after : Wrote text self' = record {
        holds = record {
          chunks = h.chunks ++ self.buf ∷ [];
          done = h.done ++ sealed;
          state = e';
          full = All-append IsFull h.chunks (self.buf ∷ []) h.full (full, tt);
          stream = refl;
          same_aad = h.same_aad;
          whole = h.whole ∙ sym more ∙ sym (append-nil (join (h.chunks ++ self.buf ∷ [])));
          sealed =
              seal_chunks-snoc streams aad start h.state e' h.chunks self.buf h.done sealed h.sealed
                n;
          written =
              col.contents-write_all sealed self.writer
              ∙ ap (λ x. x ++ sealed) h.written
              ∙ append_assoc header h.done sealed;
          counted = omega (
            arith,
            (laws.encrypt_next_steps h.state e' aad self.buf sealed n).0,
            h.counted,
            ap length more,
            length-append (join h.chunks) self.buf,
            full,
          );
        };
        short = omega arith;
      } in
      let made = write_full_chunk_made self h.state e' sealed h.stream n' in
      (ap (λ x. x.0) made, subst (λ x. Wrote text x.1) (sym made) after)

  -- The state after a part of the bytes is taken into the buffer.
  taken-Holds :
      (text part : Bytes) (self : Encryptor SealState W)
      → Holds text self
      → Holds (text ++ part) (record self { buf = self.buf ++ part })
  taken-Holds text part self h = record {
    chunks = h.chunks;
    done = h.done;
    state = h.state;
    full = h.full;
    stream = h.stream;
    same_aad = h.same_aad;
    whole = ap (λ x. x ++ part) h.whole ∙ append_assoc (join h.chunks) self.buf part;
    sealed = h.sealed;
    written = h.written;
    counted = h.counted;
  }

  write_loop-Wrote :
      (fuel : ℕ) (text bytes : Bytes) (self : Encryptor SealState W)
      → length bytes < fuel
      → Wrote text self
      → Fits (text ++ bytes)
      → ((write_loop streams io fuel bytes self).0 ≡ ok tt)
        × Wrote (text ++ bytes) (write_loop streams io fuel bytes self).1
  unfolding write_loop
  write_loop-Wrote zero text bytes self h w fits = absurd (omega arith)
  write_loop-Wrote (suc fuel) text [] self h w fits =
      (refl, subst (λ t. Wrote t self) (sym (append-nil text)) w)
  write_loop-Wrote (suc fuel) text (b ∷ bs) self h w fits =
      let taken = min (chunk_size - length self.buf) (length (b ∷ bs)) in
      let part = take taken (b ∷ bs) in
      let rest = drop taken (b ∷ bs) in
      let self' : Encryptor SealState W = record self { buf = self.buf ++ part } in
      let held = taken-Holds text part self w.holds in
      let split : (text ++ part) ++ rest ≡ text ++ b ∷ bs =
        append_assoc text part rest ∙ ap (λ x. text ++ x) (take-append-drop taken (b ∷ bs)) in
      let fits' : Fits ((text ++ part) ++ rest) = subst Fits (sym split) fits in
      let len : length self'.buf ≡ length self.buf + taken =
        omega (arith, length-append self.buf part, length-take taken (b ∷ bs), w.short) in
      let less : length rest < fuel = omega (arith, length-drop taken (b ∷ bs), w.short) in
      let small : ltb chunk_size (length self.buf) ≡ false = ground (arith, w.short) in
      elim (Bool-cases (length self'.buf == chunk_size)) [
        | inl e ↦
            let (a, w') =
              write_full_chunk-Holds (text ++ part) self' held (ground arith)
                (omega (arith, length-append (text ++ part) rest)) in
            let (p, q) =
              write_loop-Wrote fuel (text ++ part) rest (write_full_chunk streams io self').1 less
                w' fits' in
            (
              rw (write_loop, small, e, a) p,
              rw (write_loop, small, e, a)
                  (subst
                    (λ t.
                      Wrote t
                        (write_loop streams io fuel rest (write_full_chunk streams io self').1).1)
                    split q),
            )
        | inr e ↦
            let (p, q) =
              write_loop-Wrote fuel (text ++ part) rest self' less
                (record { holds = held; short = ground (arith, len, w.short) }) fits' in
            (
              rw (write_loop, small, e) p,
              rw (write_loop, small, e)
                  (subst (λ t. Wrote t (write_loop streams io fuel rest self').1) split q),
            )
      ]

  -- A write takes all its bytes.
  pub write-Wrote :
      (text bytes : Bytes) (self : Encryptor SealState W)
      → Wrote text self
      → Fits (text ++ bytes)
      → ((write streams io bytes self).0 ≡ ok (length bytes))
        × Wrote (text ++ bytes) (write streams io bytes self).1
  unfolding write
  write-Wrote text bytes self w fits =
      let (p, q) = write_loop-Wrote (suc (length bytes)) text bytes self (omega arith) w fits in
      (simp (write, w.holds.stream, p), simp (write, w.holds.stream, p) q)

  -- The end seals the buffer.
  pub finish-Seals :
      (text : Bytes) (self : Encryptor SealState W)
      → Wrote text self
      → (w' : W) × (body : Bytes) × (finish streams io self ≡ ok w')
        × (col.contents w' ≡ header ++ body)
        × Seals streams aad start text body
  unfolding finish
  finish-Seals text self w =
      let h = w.holds in
      let (sealed, n) = laws.encrypts_last h.state aad self.buf (omega (arith, w.short)) in
      let n' : streams.encrypt_last h.state self.aad self.buf ≡ some sealed = rw h.same_aad n in
      let w1 = (io.write_all sealed self.writer).1 in
      (
        (io.flush w1).1,
        h.done ++ sealed,
        simp (finish, h.stream, n', col.write_all-ok sealed self.writer, col.flush-ok w1),
        col.contents-flush w1
            ∙ col.contents-write_all sealed self.writer
            ∙ ap (λ x. x ++ sealed) h.written
            ∙ append_assoc header h.done sealed,
        record {
          chunks = h.chunks;
          last = self.buf;
          full = h.full;
          short = w.short;
          whole = h.whole;
          sealed =
              seal_body-seal_chunks streams aad start h.state h.chunks self.buf h.done sealed
                h.sealed n;
        },
      )
