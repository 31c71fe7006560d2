-- ===== src/Core/Blob/Accepted.antt =====
-- A whole run of the decryptor over any reader: what it gives is what was sealed.
use scrigno.Prelude.{
  ℕ, suc, zero, ◌+◌, ◌<◌, ◌≤◌, ◌≡◌, refl, sym, ap, ◌∙◌, subst, true, false, none, some, [], ◌∷◌,
  ◌++◌, length, take, drop, min, ltb, ◌==◌, length-append, length-take, length-drop, drop-drop,
  append_assoc, take-append-drop, drop-length_le, Bool-cases, List-cases, Result-cases, inl, inr,
  Result, ok, err, ok-eq-ok, arith,
}
use scrigno.Prelude.Bytes.{Bytes, join}
use scrigno.Core.{DocId, MasterKey, Dek, Aead}
use scrigno.Core.Stream.{IoError, Stream, StreamLaws, Reader, Supplies, read_exact, read_up_to}
use scrigno.Core.Blob.{
  Decryptor, build_aad, parse_header, new_decryptor, fill_next_segment, copy_out, read, header_len,
  chunk_size,
}
use scrigno.Core.Blob.Segments.{IsFull, seal_body}
use scrigno.Core.Blob.Reading.{read_up_to-take}
use scrigno.Core.Blob.RoundTrip.{read_all, decrypt_all}
use scrigno.Core.Blob.Authentic.{Authentic, Ready, unread, fill_next_segment-Opened}

module _ {SealState OpenState R : Type 0} (aead : Aead) (streams : Stream SealState OpenState)
    (laws : StreamLaws streams) (io : Reader R) (sup : Supplies io) (sizes : ℕ → ℕ)
    (positive : (k : ℕ) → 0 < sizes k) where
  abbrev run : ℕ → Decryptor OpenState R → Result IoError Bytes
  run fuel self = read_all aead streams io fuel sizes self

  abbrev held : Decryptor OpenState R → Bytes
  held self = drop self.out_pos self.out_buf

  -- A round that finds bytes in the buffer takes some of them and goes on.
  held_step :
      (fuel : ℕ) (self : Decryptor OpenState R) (text : Bytes)
      → self.out_pos < length self.out_buf
      → run (suc fuel) self ≡ ok text
      → (k : ℕ) × (more : Bytes) × (run fuel (record self { out_pos = self.out_pos + k }) ≡ ok more)
        × (text ≡ take k (held self) ++ more)
        × (length more < length text)
  unfolding read_all read copy_out
  held_step fuel self text some_held h =
      let e : ltb self.out_pos (length self.out_buf) ≡ true = ground arith in
      let k = min (length (held self)) (sizes fuel) in
      let got = take k (held self) in
      let size : 0 < length got =
        omega (
          arith,
          length-take k (held self),
          length-drop self.out_pos self.out_buf,
          positive fuel,
        ) in
      let self' : Decryptor OpenState R = record self { out_pos = self.out_pos + k } in
      elim (List-cases got) [
        | inl n ↦ absurd (omega (arith, ap length n))
        | inr (b, bs, n) ↦ elim (Result-cases (run fuel self')) [
          | inl (x, r) ↦ cc (simp (read_all, read, e, n, r) at h)
          | inr (more, r) ↦
              let whole : b ∷ bs ++ more ≡ text = ok-eq-ok (simp (read_all, read, e, n, r) at h) in
              (
                k,
                more,
                r,
                sym whole ∙ ap (λ x. x ++ more) (sym n),
                omega (arith, ap length whole, length-append bs more),
              )
        ]
      ]

  -- The bytes taken, and what follows those left.
  resumed :
      (k : ℕ) (self : Decryptor OpenState R) (text more later : Bytes)
      → text ≡ take k (held self) ++ more
      → more ≡ drop (self.out_pos + k) self.out_buf ++ later
      → text ≡ held self ++ later
  resumed k self text more later whole split =
      whole
      ∙ ap (λ x. take k (held self) ++ x)
          (split ∙ ap (λ x. x ++ later) (sym (drop-drop self.out_pos k self.out_buf)))
      ∙ sym (append_assoc (take k (held self)) (drop k (held self)) later)
      ∙ ap (λ x. x ++ later) (take-append-drop k (held self))

  finished_run :
      (fuel : ℕ) (self : Decryptor OpenState R) (text : Bytes)
      → self.finished ≡ true
      → length text < fuel
      → run fuel self ≡ ok text
      → text ≡ held self
  unfolding read_all read
  finished_run zero self text f h r = absurd (omega arith)
  finished_run (suc fuel) self text f h r =
      elim (Bool-cases (ltb self.out_pos (length self.out_buf))) [
        | inl e ↦
            let (k, more, rest, whole, less) = held_step fuel self text (ground arith) r in
            let ih =
              finished_run fuel (record self { out_pos = self.out_pos + k }) more f (omega arith)
                rest in
            whole
            ∙ ap (λ x. take k (held self) ++ x) (ih ∙ sym (drop-drop self.out_pos k self.out_buf))
            ∙ take-append-drop k (held self)
        | inr e ↦
            let done : [] ≡ text = ok-eq-ok (simp (read_all, read, e, f) at r) in
            sym done ∙ sym (drop-length_le self.out_pos self.out_buf (ground arith))
      ]

  -- What a round does with what `read` gives.
  abbrev go_on : ℕ → Result IoError Bytes × Decryptor OpenState R → Result IoError Bytes
  go_on fuel (answer, self) = elim answer [
    | err x ↦ err x
    | ok [] ↦ ok []
    | ok (b ∷ bs) ↦ elim (run fuel self) [ err x ↦ err x | ok more ↦ ok (b ∷ bs ++ more) ]
  ]

  -- `read` on an empty buffer is `read` on the filled one.
  read_filled :
      (n : ℕ) (self : Decryptor OpenState R)
      → length self.out_buf ≤ self.out_pos
      → self.finished ≡ false
      → (let self' = (fill_next_segment streams io self).1 in
          (fill_next_segment streams io self).0 ≡ ok tt
          → self'.out_pos ≡ 0
          → 0 < length self'.out_buf
          → read streams io n self ≡ read streams io n self')
  unfolding read
  read_filled n self empty f p start more =
      let e : ltb self.out_pos (length self.out_buf) ≡ false = ground arith in
      let self' = (fill_next_segment streams io self).1 in
      let z : length self'.out_buf == 0 ≡ false = ground arith in
      let y : ltb self'.out_pos (length self'.out_buf) ≡ true = ground (arith, start) in
      simp (read, e, f, p, z, y)

  read_unfilled :
      (n : ℕ) (self : Decryptor OpenState R)
      → length self.out_buf ≤ self.out_pos
      → self.finished ≡ false
      → ((x : IoError)
          → (fill_next_segment streams io self).0 ≡ err x
          → (read streams io n self).0 ≡ err x)
        × ((fill_next_segment streams io self).0 ≡ ok tt
            → length (fill_next_segment streams io self).1.out_buf ≡ 0
            → (read streams io n self).0 ≡ ok [])
  unfolding read
  read_unfilled n self empty f =
      let e : ltb self.out_pos (length self.out_buf) ≡ false = ground arith in
      (
        λ x p. simp (read, e, f, p),
        λ p none_held.
            let z : length (fill_next_segment streams io self).1.out_buf == 0 ≡ true =
              ground arith in
            simp (read, e, f, p, z),
      )

  -- A round with an empty buffer fills it first, and is then a round over the filled buffer.
  fill_step :
      (fuel : ℕ) (self : Decryptor OpenState R) (text : Bytes)
      → length self.out_buf ≤ self.out_pos
      → self.finished ≡ false
      → run (suc fuel) self ≡ ok text
      → (let self' = (fill_next_segment streams io self).1 in
          ((fill_next_segment streams io self).0 ≡ ok tt)
          × (self'.out_pos ≡ 0 → 0 < length self'.out_buf → run (suc fuel) self' ≡ ok text)
          × (length self'.out_buf ≡ 0 → text ≡ []))
  unfolding read_all
  fill_step fuel self text empty f r =
      let self' = (fill_next_segment streams io self).1 in
      elim (Result-cases (fill_next_segment streams io self).0) [
        | inl (x, p) ↦ cc (rw (read_all, (read_unfilled (sizes fuel) self empty f).0 x p) at r)
        | inr (u, p) ↦ (
          p,
          λ start more.
              let same = read_filled (sizes fuel) self empty f p start more in
              ap (go_on fuel) (sym same) ∙ r,
          λ none_held. sym (
              ok-eq-ok
                (rw (read_all, (read_unfilled (sizes fuel) self empty f).1 p none_held) at r)),
        )
      ]

  Authentic-cons :
      (aad : Bytes) (e e' : SealState) (chunk segment text later body rest : Bytes)
      → IsFull chunk
      → streams.encrypt_next e aad chunk ≡ some (segment, e')
      → text ≡ chunk ++ later
      → body ≡ segment ++ rest
      → Authentic streams laws io sup aad e' later rest
      → Authentic streams laws io sup aad e text body
  unfolding seal_body join
  Authentic-cons aad e e' chunk segment text later body rest full sealed all parts a = record {
    chunks = chunk ∷ a.chunks;
    last = a.last;
    full = (full, a.full);
    bounded = a.bounded;
    whole = all ∙ ap (λ x. chunk ++ x) a.whole ∙ sym (append_assoc chunk (join a.chunks) a.last);
    sealed = rw (sealed, a.sealed) (ap some (sym parts));
  }

  Ready-run :
      (fuel : ℕ) (self : Decryptor OpenState R) (e : SealState) (text : Bytes)
      → Ready streams laws io sup e self
      → length text < fuel
      → run fuel self ≡ ok text
      → (later : Bytes) × (text ≡ held self ++ later)
        × Authentic streams laws io sup self.aad e later (unread streams laws io sup self)
  Ready-run zero self e text w h r = absurd (omega arith)
  Ready-run (suc fuel) self e text w h r =
      elim (Bool-cases (ltb self.out_pos (length self.out_buf))) [
        | inl c ↦
            let (k, more, rest, whole, less) = held_step fuel self text (ground arith) r in
            let (later, split, sealed) =
              Ready-run fuel (record self { out_pos = self.out_pos + k }) e more
                (record {
                  dec = w.dec;
                  stream = w.stream;
                  paired = w.paired;
                  unfinished = w.unfinished;
                })
                (omega arith) rest in
            (later, resumed k self text more later whole split, sealed)
        | inr c ↦
            let none_held : held self ≡ [] =
              drop-length_le self.out_pos self.out_buf (ground arith) in
            let self' = (fill_next_segment streams io self).1 in
            let (p, go, stop) = fill_step fuel self text (ground arith) w.unfinished r in
            elim (fill_next_segment-Opened streams laws io sup self e w p) [
              | inl o ↦
                  let all : text ≡ self'.out_buf = elim (List-cases self'.out_buf) [
                    | inl n ↦ stop (ap length n) ∙ sym n
                    | inr (b, bs, n) ↦
                        let more : 0 < length self'.out_buf = omega (arith, ap length n) in
                        finished_run (suc fuel) self' text o.finished h (go o.start more)
                        ∙ ap (λ k. drop k self'.out_buf) o.start
                  ] in
                  (
                    text,
                    ap (λ x. x ++ text) (sym none_held),
                    record {
                      chunks = [];
                      last = text;
                      full = tt;
                      bounded = subst (λ t. length t ≤ chunk_size) (sym all) o.bounded;
                      whole = unfold join in refl;
                      sealed =
                          unfold seal_body in (ap (streams.encrypt_last e self.aad) all ∙ o.sealed);
                    },
                  )
              | inr o ↦
                  let (k, more, rest, whole, less) =
                    held_step fuel self' text (omega (arith, o.start, o.full))
                      (go o.start (omega (arith, o.full))) in
                  let next = o.ready in
                  let (later, split, sealed) =
                    Ready-run fuel (record self' { out_pos = self'.out_pos + k }) o.enc' more
                      (record {
                        dec = next.dec;
                        stream = next.stream;
                        paired = next.paired;
                        unfinished = next.unfinished;
                      })
                      (omega arith) rest in
                  let all : text ≡ self'.out_buf ++ later =
                    resumed k self' text more later whole split
                    ∙ ap (λ n. drop n self'.out_buf ++ later) o.start in
                  (
                    text,
                    ap (λ x. x ++ text) (sym none_held),
                    Authentic-cons self.aad e o.enc' self'.out_buf o.segment text later
                        (unread streams laws io sup self) (unread streams laws io sup self') o.full
                        o.sealed all o.parts
                        (subst
                          (λ a.
                            Authentic streams laws io sup a o.enc' later
                              (unread streams laws io sup self'))
                          o.same_aad sealed),
                  )
            ]
      ]

  -- Where the decryptor gives a text to the end, from whatever its reader held, the reader held a
  -- header that the master key opens for the document, and behind it that text sealed under the
  -- header's key and prefix with the whole header and the document as associated data. The reader
  -- does not fail, the reads are more than the bytes and their buffers not empty, and the stream
  -- cipher keeps its laws.
  pub decrypt_all-Authentic :
      (fuel : ℕ) (reader : R) (mk : MasterKey) (doc_id : DocId) (text : Bytes)
      → length text < fuel
      → decrypt_all aead streams io fuel sizes reader mk doc_id ≡ ok text
      → (header : Bytes) × (body : Bytes) × (dek : Dek) × (prefix' : Bytes) × (sup.contents reader
          ≡ header ++ body)
        × (parse_header streams io aead mk doc_id header ≡ ok (dek, prefix'))
        × Authentic streams laws io sup
            (build_aad header doc_id)
            (streams.new_encryptor dek.bytes prefix')
            text
            body
  unfolding decrypt_all new_decryptor read_exact
  decrypt_all-Authentic fuel reader mk doc_id text enough h =
      let got = read_up_to io header_len header_len header_len [] reader in
      let (p, q) =
        read_up_to-take io sup header_len header_len header_len [] reader (omega arith)
          (omega arith) (omega arith) in
      let header = take header_len (sup.contents reader) in
      elim (Bool-cases (length header == header_len)) [
        | inr z ↦ cc (rw (decrypt_all, new_decryptor, read_exact, p, z) at h)
        | inl z ↦ elim (Result-cases (parse_header streams io aead mk doc_id header)) [
          | inl (x, f) ↦ cc (rw (decrypt_all, new_decryptor, read_exact, p, z, f) at h)
          | inr ((dek, prefix'), f) ↦
              let self : Decryptor OpenState R = record {
                reader = got.1;
                stream = some (streams.new_decryptor dek.bytes prefix');
                aad = build_aad header doc_id;
                out_buf = [];
                out_pos = 0;
                pending = none;
                finished = false;
              } in
              let r : run fuel self ≡ ok text =
                rw (decrypt_all, new_decryptor, read_exact, p, z, f) at h in
              let (later, split, sealed) =
                Ready-run fuel self (streams.new_encryptor dek.bytes prefix') text
                  (record {
                    dec = streams.new_decryptor dek.bytes prefix';
                    stream = refl;
                    paired = laws.Paired-new dek.bytes prefix';
                    unfinished = refl;
                  })
                  enough r in
              (
                header,
                drop header_len (sup.contents reader),
                dek,
                prefix',
                sym (take-append-drop header_len (sup.contents reader)),
                f,
                subst
                    (λ t.
                      Authentic streams laws io sup (build_aad header doc_id)
                        (streams.new_encryptor dek.bytes prefix') t
                        (drop header_len (sup.contents reader)))
                    (sym split)
                    (subst
                      (Authentic streams laws io sup (build_aad header doc_id)
                        (streams.new_encryptor dek.bytes prefix') later)
                      q sealed),
              )
        ]
      ]
