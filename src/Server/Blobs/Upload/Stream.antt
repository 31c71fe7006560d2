-- ===== src/Server/Blobs/Upload/Stream.antt =====
-- What `stream_into_upload` of routes/blobs.rs has read and sent.
use scrigno.Prelude.{
  ℕ, zero, suc, ◌+◌, ◌≡◌, ◌≤◌, ◌<◌, refl, sym, ap, ◌∙◌, List, [], ◌∷◌, ◌++◌, append_assoc,
  append-nil, leb, ok, err, map, length, length-append, arith, Bool-cases, Result-cases, inl, inr,
  ◌⊎◌,
}
use scrigno.Prelude.Bytes.{join, join-append, Bytes}
use scrigno.Server.Blobs.{Digest, DigestLaws, absorb}
use scrigno.Server.Blobs.Upload.{
  Upload, Chunk, put_part, flush, stream_loop, finish, stream_into_upload, part_buffer_bytes,
}

append-four : (p b c r : Bytes) → (p ++ (b ++ c)) ++ r ≡ (p ++ b) ++ (c ++ r)
append-four p b c r = ap (λ t. t ++ r) (sym (append_assoc p b c)) ∙ append_assoc (p ++ b) c r

Nat-cases : (n : ℕ) → (n ≡ zero) ⊎ ((m : ℕ) × (n ≡ suc m))
Nat-cases zero = inl refl
Nat-cases (suc n) = inr (n, refl)

put_part-ok :
    (part : Bytes) (u u' : Upload) → put_part part u ≡ ok u' → join u'.parts ≡ join u.parts ++ part
unfolding put_part join
put_part-ok part u u' h = elim (Nat-cases u.calls_left) [
  | inl e ↦ ground arith
  | inr (n, e) ↦
      (let q : u.parts ++ part ∷ [] ≡ u'.parts = ground arith in
        rw (sym q, join-append u.parts (part ∷ []), append-nil part) refl)
]

flush-ok :
    (limit : ℕ) (buffer buffer' : Bytes) (u u' : Upload)
    → flush limit buffer u ≡ ok (buffer', u')
    → (join u'.parts ++ buffer' ≡ join u.parts ++ buffer)
      × (length buffer' ≤ length buffer)
      × (1 ≤ limit → length buffer' < limit)
unfolding flush
flush-ok limit buffer buffer' u u' h = elim (Bool-cases (leb limit (length buffer))) [
  | inl t ↦ elim (Result-cases (put_part buffer u)) [
    | inl (e, he) ↦ ground arith
    | inr (v, hv) ↦ ground (arith, put_part-ok buffer u v hv, append-nil (join u'.parts))
  ]
  | inr t ↦ ground arith
]

-- What a run of the loop has done, for the chunks `bs` that it took.
record Streamed (D : Digest) (max_bytes : ℕ) (cs : List Chunk) (total total' : ℕ)
    (hasher hasher' : D.Hasher) (buffer buffer' : Bytes) (u u' : Upload) (bs : List Bytes)
    : Type 0 where
  taken : cs ≡ map ok bs
  counted : total' ≡ total + length (join bs)
  hashed : hasher' ≡ absorb D hasher bs
  sent : join u'.parts ++ buffer' ≡ (join u.parts ++ buffer) ++ join bs
  bounded : total ≤ max_bytes → total' ≤ max_bytes

stream_loop-step :
    (D : Digest) (max_bytes : ℕ) (c : Bytes) (cs : List Chunk) (total total' : ℕ)
    (hasher hasher' : D.Hasher) (buffer buffer' b : Bytes) (u u' v : Upload)
    → stream_loop D max_bytes (ok c ∷ cs) total hasher buffer u ≡ ok (total', hasher', buffer', u')
    → flush part_buffer_bytes (buffer ++ c) u ≡ ok (b, v)
    → (total + length c ≤ max_bytes)
      × (stream_loop D max_bytes cs (total + length c) (D.update hasher c) b v
          ≡ ok (total', hasher', buffer', u'))
unfolding stream_loop
stream_loop-step D max_bytes c cs total total' hasher hasher' buffer buffer' b u u' v h hv =
    ground arith

stream_loop-ok :
    (D : Digest) (max_bytes : ℕ) (cs : List Chunk) (total total' : ℕ) (hasher hasher' : D.Hasher)
    (buffer buffer' : Bytes) (u u' : Upload)
    → stream_loop D max_bytes cs total hasher buffer u ≡ ok (total', hasher', buffer', u')
    → (bs : List Bytes) × Streamed D max_bytes cs total total' hasher hasher' buffer buffer' u u' bs
unfolding stream_loop join absorb
stream_loop-ok D max_bytes [] total total' hasher hasher' buffer buffer' u u' h = (
  [],
  record {
    taken = refl;
    counted = let e : total ≡ total' = cc in omega arith;
    hashed = cc;
    sent =
        let e : buffer ≡ buffer' = cc in
        let f : u ≡ u' = cc in rw (e, f) (sym (append-nil (join u'.parts ++ buffer')));
    bounded = λ l. let e : total ≡ total' = cc in omega arith;
  },
)
stream_loop-ok D max_bytes (err e ∷ cs) total total' hasher hasher' buffer buffer' u u' h =
    ground arith
stream_loop-ok D max_bytes (ok c ∷ cs) total total' hasher hasher' buffer buffer' u u' h =
    elim (Result-cases (flush part_buffer_bytes (buffer ++ c) u)) [
      | inl (e, he) ↦ ground arith
      | inr ((b, v), hv) ↦
          (let (l, k) =
              stream_loop-step D max_bytes c cs total total' hasher hasher' buffer buffer' b u u' v
                h hv in
            let (bs, s) =
              stream_loop-ok D max_bytes cs (total + length c) total' (D.update hasher c) hasher' b
                buffer' v u' k in
            let (f, _, _) = flush-ok part_buffer_bytes (buffer ++ c) b u v hv in
            (
              c ∷ bs,
              record {
                taken = ap (λ t. ok c ∷ t) s.taken;
                counted = omega (arith, s.counted, length-append c (join bs));
                hashed = s.hashed;
                sent = s.sent ∙ (rw f (append-four (join u.parts) buffer c (join bs)));
                bounded = λ _. s.bounded l;
              },
            ))
    ]

sent-nil : (b p : Bytes) → length b < 1 → p ≡ p ++ b
sent-nil [] p h = sym (append-nil p)
sent-nil (c ∷ b) p h = absurd (omega arith)

finish-ok :
    (D : Digest) (n : ℕ) (hasher : D.Hasher) (buffer : Bytes) (v u' : Upload) (total : ℕ)
    (sha256 : Bytes)
    → (finish D n hasher buffer v) ≡ ok (total, sha256, u')
    → (total ≡ n) × (sha256 ≡ D.finalize hasher) × (b : Bytes) × (flush 1 buffer v ≡ ok (b, u'))
unfolding finish
finish-ok D n hasher buffer v u' total sha256 h = elim (Result-cases (flush 1 buffer v)) [
  | inl (e, he) ↦ ground arith
  | inr ((b, w), hw) ↦ ground arith
]

pub stream_into_upload-ok :
    (D : Digest) (hash : Bytes → Bytes) (max_bytes : ℕ) (body : List Chunk) (u u' : Upload)
    (total : ℕ) (sha256 : Bytes)
    → DigestLaws D hash
    → stream_into_upload D max_bytes body u ≡ ok (total, sha256, u')
    → (bs : List Bytes) × (body ≡ map ok bs)
      × (total ≡ length (join bs))
      × (total ≤ max_bytes)
      × (sha256 ≡ hash (join bs))
      × (join u'.parts ≡ join u.parts ++ join bs)
unfolding stream_into_upload DigestLaws
stream_into_upload-ok D hash max_bytes body u u' total sha256 laws h =
    elim (Result-cases (stream_loop D max_bytes body 0 D.new [] u)) [
      | inl (e, he) ↦ ground arith
      | inr ((n, hasher, buffer, v), hv) ↦
          (let (bs, s) = stream_loop-ok D max_bytes body 0 n D.new hasher [] buffer u v hv in
            let (hn, hs, b, hf) = finish-ok D n hasher buffer v u' total sha256 (ground arith) in
            let (f, _, g) = flush-ok 1 buffer b v u' hf in
            (
              bs,
              s.taken,
              omega (arith, s.counted, hn),
              omega (arith, s.bounded, hn),
              hs ∙ (ap D.finalize s.hashed ∙ laws bs),
              sent-nil b (join u'.parts) (g (omega arith))
                  ∙ (f ∙ (s.sent ∙ ap (λ t. t ++ join bs) (append-nil (join u.parts)))),
            ))
    ]
