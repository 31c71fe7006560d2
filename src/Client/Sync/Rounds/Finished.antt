-- ===== src/Client/Sync/Rounds/Finished.antt =====
-- What holds when a sync answers with a report.
use scrigno.Prelude.{
  ℕ, zero, suc, ◌≡◌, refl, ◌∙◌, ap, subst, true, false, Option, none, some, List, [], ◌∷◌, ok, err,
  Option-cases, Result-cases, inl, inr,
}
use scrigno.Core.{Aead}
use scrigno.Core.Meta.{Json}
use scrigno.Client.{DocumentRow, SyncReport, ClientError, Outcome}
use scrigno.Client.Store.{Store, cache_get, list_documents}
use scrigno.Client.Store.Tables.{get_document-keeps}
use scrigno.Client.Vault.{UnlockedVault}
use scrigno.Client.Vault.Cache.{BlobReader, ensure_cached}
use scrigno.Client.Vault.Cache.Eviction.{refresh_cached_flag-keeps}
use scrigno.Client.Vault.Cache.Fetching.{ensure_cached-keeps}
use scrigno.Client.Vault.Edit.{BlobWriter}
use scrigno.Client.Sync.{Environment, max_rounds}
use scrigno.Client.Sync.Rounds.{
  Pulled, no_pulled, pull, push_once, fetch_row, fetch_rows, prefetch_keep_offline, sync_rounds,
  sync, wanted,
}
use scrigno.Client.Sync.Rounds.Settling.{Settled, Settled-subst}
use scrigno.Client.Sync.Rounds.Pushing.{push_once-Settled}

module _ (aead : Aead) (json : Json) {Remote : Type 0} (env : Environment Remote)
    (reader : BlobReader) (writer : BlobWriter) where
  fetch_row-documents :
      (row : DocumentRow) (v : UnlockedVault) (r : Remote)
      → (fetch_row aead json env reader writer row (v, r)).1.0.store.documents ≡ v.store.documents
  unfolding fetch_row
  fetch_row-documents row v r = elim (Option-cases row.blob_id) [
    | inl e ↦ simp (fetch_row, e)
    | inr (blob_id, e) ↦ elim (Option-cases (cache_get blob_id v.store)) [
      | inr (c, f) ↦ simp (fetch_row, e, f)
      | inl f ↦
          let fetched = ensure_cached env.source blob_id (env.draw r).0.now (v, (env.draw r).1) in
          let kept =
            (ensure_cached-keeps env.source blob_id (env.draw r).0.now v (env.draw r).1).0 in
          elim (Result-cases fetched.0) [
            | inl (x, g) ↦ rw (fetch_row, e, f, g) kept
            | inr (u, g) ↦
                rw (fetch_row, e, f, g)
                  (ap Store.documents (refresh_cached_flag-keeps row.id fetched.1.0).0 ∙ kept)
          ]
    ]
  ]

  fetch_rows-documents :
      (rows : List DocumentRow) (v : UnlockedVault) (r : Remote)
      → (fetch_rows aead json env reader writer rows (v, r)).1.0.store.documents ≡ v.store.documents
  unfolding fetch_rows
  fetch_rows-documents [] v r = refl
  fetch_rows-documents (row ∷ rows) v r =
      let first = fetch_row aead json env reader writer row (v, r) in
      let kept = fetch_row-documents row v r in
      elim (Result-cases first.0) [
        | inl (x, e) ↦ rw (fetch_rows, e) kept
        | inr (u, e) ↦ rw (fetch_rows, e) (fetch_rows-documents rows first.1.0 first.1.1 ∙ kept)
      ]

  prefetch-documents :
      (v : UnlockedVault) (r : Remote)
      → (prefetch_keep_offline aead json env reader writer (v, r)).1.0.store.documents
        ≡ v.store.documents
  unfolding prefetch_keep_offline
  prefetch-documents v r = fetch_rows-documents (wanted (list_documents v.store)) v r

  sync_rounds-Settled :
      (id fuel rounds pushed : ℕ) (p : Pulled) (v : UnlockedVault) (r : Remote)
      (report : SyncReport) (w : UnlockedVault) (r' : Remote)
      → sync_rounds aead json env reader writer fuel rounds p pushed (v, r)
        ≡ some (ok report, (w, r'))
      → Settled id w.store
  unfolding sync_rounds
  sync_rounds-Settled id fuel zero pushed p v r report w r' h = cc
  sync_rounds-Settled id fuel (suc rounds) pushed p v r report w r' h =
      elim (Option-cases (pull aead json env reader writer fuel (v, r))) [
        | inl e ↦ absurd (no_more (ok report, (w, r')) (rw (sync_rounds, e) at h))
        | inr ((err x, s), e) ↦ absurd (failed x report s (w, r') (rw (sync_rounds, e) at h))
        | inr ((ok q, s), e) ↦ elim (Result-cases (push_once aead json env reader writer s).0) [
          | inl (x, f) ↦ absurd (failed x report _ (w, r') (rw (sync_rounds, e, f) at h))
          | inr ((n, true), f) ↦
              sync_rounds-Settled id fuel rounds _ _ _ _ report w r' (rw (sync_rounds, e, f) at h)
          | inr ((n, false), f) ↦
              let sent = (push_once aead json env reader writer s).1 in
              let settled = push_once-Settled aead json env reader writer id n s.0 s.1 f in
              let fetched = prefetch_keep_offline aead json env reader writer sent in
              elim (Result-cases fetched.0) [
                | inl (x, g) ↦ absurd (failed x report _ (w, r') (rw (sync_rounds, e, f, g) at h))
                | inr (u, g) ↦
                    let same : fetched.1.0 ≡ w = last _ _ _ _ _ (rw (sync_rounds, e, f, g) at h) in
                    subst (λ w. Settled id w.store) same
                      (Settled-subst id sent.0.store fetched.1.0.store
                        (get_document-keeps id fetched.1.0.store sent.0.store
                          (prefetch-documents sent.0 sent.1))
                        settled)
              ]
        ]
      ]
    where
      no_more : {A : Type 0} (a : A) → Path (Option A) none (some a) → ⊥
      no_more a h = cc

      failed :
          {S : Type 0} (x : ClientError) (report : SyncReport) (s t : S)
          → Path (Option (Outcome SyncReport S)) (some (err x, s)) (some (ok report, t))
          → ⊥
      failed x report s t h = cc

      last :
          (a b : SyncReport) (v w : UnlockedVault) (s : Remote × Remote)
          → Path
              (Option (Outcome SyncReport (UnlockedVault × Remote)))
              (some (ok a, (v, s.0)))
              (some (ok b, (w, s.1)))
          → v ≡ w
      last a b v w s h = cc

  -- After a sync that answers with a report no local edit waits: a document has no row, or its row is
  -- clean, or it is live and has no blob that could be sent.
  pub sync-Settled :
      (id fuel : ℕ) (v w : UnlockedVault) (r r' : Remote) (report : SyncReport)
      → sync aead json env reader writer fuel (v, r) ≡ some (ok report, (w, r'))
      → Settled id w.store
  unfolding sync
  sync-Settled id fuel v w r r' report h =
      sync_rounds-Settled id fuel max_rounds 0 no_pulled v r report w r' h
