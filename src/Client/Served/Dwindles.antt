-- ===== src/Client/Served/Dwindles.antt =====
-- The feed of the server dwindles, so that a pull from it ends.
use scrigno.Prelude.{
  ℕ, ◌≤◌, ◌<◌, ◌≡◌, refl, sym, ap, ◌∙◌, append-nil, true, some, inl, inr, ok, err, ok-eq-ok,
}
use scrigno.Prelude.Bytes.{Bytes, join}
use scrigno.Core.{Aead}
use scrigno.Core.Meta.{Json}
use scrigno.Server.{bad_request, status, into_response}
use scrigno.Server.Changes.{ChangesPage, page}
use scrigno.Server.Changes.Shrinking.{changed_count, page-shrinks, list_changes-cases}
use scrigno.Client.{ClientError, Outcome}
use scrigno.Client.Vault.{UnlockedVault}
use scrigno.Client.Vault.Cache.{BlobReader}
use scrigno.Client.Vault.Edit.{BlobWriter, Draws}
use scrigno.Client.Sync.{Environment, cursor_of}
use scrigno.Client.Sync.Rounds.{Pulled, pull}
use scrigno.Client.Sync.Rounds.Termination.{Dwindling, pull-Ends}
use scrigno.Client.Http.{Wire, get_changes, map_error_response, http_get_changes}
use scrigno.Client.Http.Answers.{http_get_changes-page, http_get_changes-refused}
use scrigno.Client.Http.Transfers.Keeps.{get_blob_to_file-keeps}
use scrigno.Client.Http.Wired.{http_environment, http_source}
use scrigno.Client.Served.{Printer, Served, Site, serve, served, refusal, plain}

module _ (wire : Wire) (printer : Printer) (set : Site) (sha256 : Bytes → Bytes) {Seed : Type 0}
    (draw : Seed → Draws × Seed) where
  unfoldable pub served_environment : Environment (Served Seed)
  served_environment =
      http_environment (served printer set) wire sha256
        (λ r. let (draws, seed) = draw r.seed in (draws, record r { seed = seed }))

  module _ (print : (p : ChangesPage) → wire.parse_page (printer.print_page p) ≡ some p) where
    data Fed (since limit : ℕ) (r : Served Seed) : Type 0 where
      refused :
          (e : ClientError)
          → http_get_changes (served printer set) wire since limit r ≡ (err e, r)
          → Fed since limit r
      fed :
          http_get_changes (served printer set) wire since limit r
            ≡ (ok (page since limit r.state.db.documents), r)
          → 1 ≤ limit
          → Fed since limit r

    http_get_changes-Fed : (since limit : ℕ) (r : Served Seed) → Fed since limit r
    unfolding serve served refusal status into_response
    http_get_changes-Fed since limit r = elim (list_changes-cases since limit r.state.db) [
      | inl (message, e) ↦
          let resp = refusal printer (bad_request message) in
          let sent : serve printer set (get_changes since limit) r ≡ (some resp, r) =
            rw (serve, e) refl in
          refused (map_error_response wire resp)
            (http_get_changes-refused (served printer set) wire since limit r r resp sent refl)
      | inr (e, positive) ↦
          let p = page since limit r.state.db.documents in
          let resp = plain 200 (printer.print_page p) in
          let sent : serve printer set (get_changes since limit) r ≡ (some resp, r) =
            rw (serve, e) refl in
          fed
            (http_get_changes-page (served printer set) wire since limit r r resp sent refl refl
              ∙ unfold join in rw (append-nil (printer.print_page p), print p) refl)
            positive
    ]

    -- A page of the server's that is not the last leaves fewer changed rows.
    served-Dwindling : Dwindling served_environment
    unfolding served_environment http_environment http_source served serve
    served-Dwindling = record {
      rest = λ cursor r. changed_count cursor r.state.db.documents;
      less = λ cursor limit r page' h more.
          less cursor limit r page' h more (http_get_changes-Fed cursor limit r);
      draw-same = λ cursor r. refl;
      get_blob_to_file-same = λ cursor id r.
          get_blob_to_file-keeps (served printer set) wire sha256
            (λ r. changed_count cursor r.state.db.documents) id (λ r. refl) (λ n r. refl) r;
    }
      where
        less :
            (cursor limit : ℕ) (r : Served Seed) (page' : ChangesPage)
            → (http_get_changes (served printer set) wire cursor limit r).0 ≡ ok page'
            → page'.has_more ≡ true
            → Fed cursor limit r
            → changed_count page'.next_since
                (http_get_changes (served printer set) wire cursor limit r).1.state.db.documents
              < changed_count cursor r.state.db.documents
        less cursor limit r page' h more (refused e q) = cc
        less cursor limit r page' h more (fed q positive) =
            let same : page cursor limit r.state.db.documents ≡ page' =
              ok-eq-ok (sym (ap (λ x. x.0) q) ∙ h) in
            let shrinks =
              page-shrinks cursor limit r.state.db.documents positive
                (ap (λ p. p.has_more) same ∙ more) in
            rw (ap (λ x. x.1) q, ← same) shrinks

    -- A pull from the server ends, with an answer or an error, on fuel for more pages than the server has
    -- rows changed after the stored cursor. The client parses the pages that the server prints.
    pub pull-Ends_served :
        (aead : Aead) (json : Json) (reader : BlobReader) (writer : BlobWriter) (fuel : ℕ)
        (v : UnlockedVault) (r : Served Seed)
        → changed_count (cursor_of v.store) r.state.db.documents < fuel
        → (o : Outcome Pulled (UnlockedVault × Served Seed)) × (pull aead json served_environment
              reader writer fuel
              (v, r)
            ≡ some o)
    unfolding served-Dwindling
    pull-Ends_served aead json reader writer fuel v r h =
        pull-Ends aead json served_environment reader writer served-Dwindling fuel v r h
