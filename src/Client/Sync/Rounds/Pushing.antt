-- ===== src/Client/Sync/Rounds/Pushing.antt =====
-- What a push leaves behind.
use scrigno.Prelude.{
  ℕ, ◌+◌, ◌≡◌, ◌≢◌, refl, subst, sym, Bool, true, false, ◌||◌, List, [], ◌∷◌, Result, ok, err, ◌==◌,
  ==_iff, arith, Bool-cases, Option-cases, Result-cases, inl, inr,
}
use scrigno.Server.{Uuid}
use scrigno.Core.{Aead}
use scrigno.Core.Meta.{Json}
use scrigno.Client.{DocumentRow, ClientError}
use scrigno.Client.Store.{get_document, list_dirty_documents}
use scrigno.Client.Store.Tables.{get_document-id, listed, list_dirty_documents-listed}
use scrigno.Client.Vault.{UnlockedVault}
use scrigno.Client.Vault.Cache.{BlobReader}
use scrigno.Client.Vault.Edit.{BlobWriter}
use scrigno.Client.Sync.{Environment}
use scrigno.Client.Sync.Rounds.{settle, push_id, push_ids, push_once, doc_ids}
use scrigno.Client.Sync.Rounds.Settling.{
  Settled, Settled-elim, Settled-intro, Settled-subst, accept-Settled, push_row-blobless,
  push_row-cases, settle-accepted, settle-others,
}

module _ (aead : Aead) (json : Json) {Remote : Type 0} (env : Environment Remote)
    (reader : BlobReader) (writer : BlobWriter) where
  push_id-others :
      (id other : Uuid) (v : UnlockedVault) (r : Remote)
      → (other == id) ≡ false
      → get_document id (push_id aead json env reader writer other (v, r)).1.0.store
        ≡ get_document id v.store
  unfolding push_id
  push_id-others id other v r apart = elim (Option-cases (get_document other v.store)) [
    | inl e ↦ rw (push_id, e) refl
    | inr (row, e) ↦ elim (Bool-cases row.dirty) [
      | inr d ↦ simp (push_id, e, d)
      | inl d ↦ elim (push_row-cases aead json env reader writer row v r) [
        | inr (x, y, h) ↦ simp (push_id, e, d, h)
        | inl (answer, same, h) ↦
            simp (push_id, e, d, h)
              (settle-others aead json env reader writer id row v answer same
                (rw (get_document-id other v.store row e) apart))
      ]
    ]
  ]

  -- A step for the document itself leaves it settled if it meets no conflict.
  push_id-Settled :
      (id n : ℕ) (v : UnlockedVault) (r : Remote)
      → (push_id aead json env reader writer id (v, r)).0 ≡ ok (n, false)
      → Settled id (push_id aead json env reader writer id (v, r)).1.0.store
  unfolding push_id
  push_id-Settled id n v r h = elim (Option-cases (get_document id v.store)) [
    | inl e ↦ simp (push_id, e) (Settled-intro id v.store (inl e))
    | inr (row, e) ↦ elim (Bool-cases row.dirty) [
      | inr d ↦ simp (push_id, e, d) (Settled-intro id v.store (inr (row, e, inl d)))
      | inl d ↦ elim (push_row-cases aead json env reader writer row v r) [
        | inr (x, y, g) ↦
            simp (push_id, e, d, g) (Settled-intro id v.store (inr (row, e, inr (x, y))))
        | inl (answer, same, g) ↦
            let h' : (settle row answer).0 ≡ ok (n, false) = simp (push_id, e, d, g) at h in
            let (item, done) = settle-accepted aead json env reader writer row answer n h' in
            let own : Settled row.id (settle row answer).1.0.store =
              accept-Settled aead json env reader writer row item answer.1.0 (settle row answer).1.0
                done in
            simp (push_id, e, d, g)
              (subst (λ i. Settled i (settle row answer).1.0.store)
                (get_document-id id v.store row e) own)
      ]
    ]
  ]

  push_id-own :
      (id : Uuid) (v : UnlockedVault) (r : Remote)
      → Settled id v.store
      → Settled id (push_id aead json env reader writer id (v, r)).1.0.store
  unfolding push_id
  push_id-own id v r s = elim (Settled-elim id v.store s) [
    | inl e ↦ simp (push_id, e) s
    | inr (row, e, inl d) ↦ simp (push_id, e, d) s
    | inr (row, e, inr (l, b)) ↦ elim (Bool-cases row.dirty) [
      | inr d ↦ simp (push_id, e, d) s
      | inl d ↦ simp (push_id, e, d, push_row-blobless aead json env reader writer row v r l b) s
    ]
  ]

  -- And a settled document stays so.
  push_id-keeps :
      (id other : ℕ) (v : UnlockedVault) (r : Remote)
      → Settled id v.store
      → Settled id (push_id aead json env reader writer other (v, r)).1.0.store
  push_id-keeps id other v r s = elim (Bool-cases (other == id)) [
    | inr e ↦
        Settled-subst id v.store (push_id aead json env reader writer other (v, r)).1.0.store
          (push_id-others id other v r e) s
    | inl e ↦ rw ((==_iff other id).0 e) (push_id-own id v r s)
  ]

  push_ids-keeps :
      (id : Uuid) (ids : List Uuid) (v : UnlockedVault) (r : Remote)
      → Settled id v.store
      → Settled id (push_ids aead json env reader writer ids (v, r)).1.0.store
  unfolding push_ids
  push_ids-keeps id [] v r s = s
  push_ids-keeps id (other ∷ ids) v r s =
      let first = push_id aead json env reader writer other (v, r) in
      let kept = push_id-keeps id other v r s in
      let rest = push_ids-keeps id ids first.1.0 first.1.1 kept in
      elim (Result-cases first.0) [
        | inl (x, e) ↦ rw (push_ids, e) kept
        | inr (p, e) ↦ elim (Result-cases (push_ids aead json env reader writer ids first.1).0) [
          | inl (x, f) ↦ rw (push_ids, e, f) rest
          | inr (q, f) ↦ rw (push_ids, e, f) rest
        ]
      ]

  push_ids-split :
      (id n : ℕ) (ids : List Uuid) (v : UnlockedVault) (r : Remote)
      → (push_ids aead json env reader writer (id ∷ ids) (v, r)).0 ≡ ok (n, false)
      → (p : ℕ) × (q : ℕ) × ((push_id aead json env reader writer id (v, r)).0 ≡ ok (p, false))
        × ((push_ids aead json env reader writer ids
              (push_id aead json env reader writer id (v, r)).1).0
            ≡ ok (q, false))
        × ((push_ids aead json env reader writer (id ∷ ids) (v, r)).1
            ≡ (push_ids aead json env reader writer ids
                (push_id aead json env reader writer id (v, r)).1).1)
  unfolding push_ids
  push_ids-split id n ids v r h =
      let first = push_id aead json env reader writer id (v, r) in
      let next = push_ids aead json env reader writer ids first.1 in
      elim (Result-cases first.0) [
        | inl (x, e) ↦ absurd (err-ne-ok x (n, false) (rw (push_ids, e) at h))
        | inr ((p, met), e) ↦ elim (Result-cases next.0) [
          | inl (x, f) ↦ absurd (err-ne-ok x (n, false) (rw (push_ids, e, f) at h))
          | inr ((q, met'), f) ↦
              let (m, m') = neither p q n met met' (rw (push_ids, e, f) at h) in
              (p, q, rw (← m) e, rw (← m') f, rw (push_ids, e, f) refl)
        ]
      ]
    where
      err-ne-ok : (x : ClientError) (a : ℕ × Bool) → err x ≢ ok a
      err-ne-ok x a h = cc

      or-false : (b c : Bool) → (b || c) ≡ false → (b ≡ false) × (c ≡ false)
      or-false b c h = ground arith

      neither :
          (p q n : ℕ) (b c : Bool)
          → Path (Result ClientError (ℕ × Bool)) (ok (p + q, b || c)) (ok (n, false))
          → (b ≡ false) × (c ≡ false)
      neither p q n b c h = or-false b c cc

  -- The ids of a loop that met no conflict.
  push_ids-Settled :
      (id n : ℕ) (rows : List DocumentRow) (v : UnlockedVault) (r : Remote)
      → listed id rows ≡ true
      → (push_ids aead json env reader writer (doc_ids rows) (v, r)).0 ≡ ok (n, false)
      → Settled id (push_ids aead json env reader writer (doc_ids rows) (v, r)).1.0.store
  unfolding listed doc_ids
  push_ids-Settled id n [] v r h done = cc
  push_ids-Settled id n (row ∷ rows) v r h done =
      let (p, q, e, f, last) = push_ids-split row.id n (doc_ids rows) v r done in
      let first = push_id aead json env reader writer row.id (v, r) in
      let next = push_ids aead json env reader writer (doc_ids rows) first.1 in
      let settled : Settled id next.1.0.store = elim (Bool-cases (row.id == id)) [
        | inl t ↦
            let same = (==_iff row.id id).0 t in
            push_ids-keeps id (doc_ids rows) first.1.0 first.1.1
              (subst (λ i. Settled i first.1.0.store) same (push_id-Settled row.id p v r e))
        | inr t ↦
            push_ids-Settled id q rows first.1.0 first.1.1
              (tail (row.id == id) (listed id rows) t h) f
      ] in
      subst (λ w. Settled id w.0.store) (sym last) settled
    where
      tail : (b c : Bool) → b ≡ false → (b || c) ≡ true → c ≡ true
      tail b c e h = ground arith

  -- After a push that met no conflict and no error no local edit waits, but that of a live row without
  -- a blob.
  pub push_once-Settled :
      (id n : ℕ) (v : UnlockedVault) (r : Remote)
      → (push_once aead json env reader writer (v, r)).0 ≡ ok (n, false)
      → Settled id (push_once aead json env reader writer (v, r)).1.0.store
  unfolding push_once
  push_once-Settled id n v r h =
      let rows = list_dirty_documents v.store in
      elim (Option-cases (get_document id v.store)) [
        | inl e ↦ push_ids-keeps id (doc_ids rows) v r (Settled-intro id v.store (inl e))
        | inr (row, e) ↦ elim (Bool-cases row.dirty) [
          | inr d ↦
              push_ids-keeps id (doc_ids rows) v r (Settled-intro id v.store (inr (row, e, inl d)))
          | inl d ↦
              push_ids-Settled id n rows v r (list_dirty_documents-listed id v.store row e d) h
        ]
      ]
