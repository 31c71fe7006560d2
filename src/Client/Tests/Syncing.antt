-- ===== src/Client/Tests/Syncing.antt =====
-- The sync engine at concrete inputs: the server is a counter of draws; it has one page of changes,
-- and applies every push.
use mathlib.Core.Option
use scrigno.Prelude.{
  ℕ, suc, ◌+◌, ◌<◌, ◌≡◌, ◌≢◌, refl, ap, ◌∙◌, arith, true, false, Option, none, some, [], ◌∷◌, inl,
  inr, Result, ok, err,
}
use scrigno.Prelude.Bytes.{same_bytes}
use scrigno.Server.{Uuid, DocumentRecord, PutDocRequest}
use scrigno.Server.Changes.{ChangesPage}
use scrigno.Core.Tests.{toy_aead}
use scrigno.Client.{ClientError, not_found, Outcome, SyncReport}
use scrigno.Client.Store.{get_document, kv_get}
use scrigno.Client.Vault.{UnlockedVault}
use scrigno.Client.Vault.Cache.{BlobSource, BlobReader}
use scrigno.Client.Tests.{titled_json, draws_of, vault, row, writer, pulled_item, mk}
use scrigno.Client.Sync.{Environment, applied, cursor_of, pushed_row}
use scrigno.Client.Store.{
  kv_set, upsert_document, list_dirty_documents, list_documents, cache_remove,
}
use scrigno.Client.Store.Numbers.{to_string}
use scrigno.Client.Vault.{remove_summary, update_slot}
use scrigno.Client.Sync.{apply_pulled_record}
use scrigno.Client.Sync.Rounds.Finished.{sync-Settled}
use scrigno.Client.Sync.Rounds.Settling.{Settled}
use scrigno.Client.Sync.Rounds.{
  sync, sync_rounds, pull_pages, push_once, push_ids, push_id, push_row, prefetch_keep_offline,
  fetch_rows, add_pulled, doc_ids,
}
use scrigno.Client.Sync.Rounds.{pull_item, pull_items, pull}
use scrigno.Client.Sync.Rounds.Pulling.{pull_items-Pending}
use scrigno.Client.Sync.Rounds.Termination.{Dwindling}

abbrev pub other_item : DocumentRecord
other_item = record {
  id = 8;
  version = 3;
  blob_id = none;
  blob_size = 0;
  enc_meta = [];
  deleted = true;
  server_seq = 5;
  updated_at = 31;
}

abbrev old_item : DocumentRecord
old_item = record pulled_item { version = 1 }

-- After the cursor 0 there is a page and more to come, and nothing else.
abbrev changes_after : ℕ → ChangesPage
changes_after ℕ.zero = record { items = other_item ∷ []; next_since = 5; has_more = true }
changes_after (suc n) = record { items = []; next_since = suc n; has_more = false }

abbrev apply_push : Uuid → ℕ → PutDocRequest → DocumentRecord
apply_push id base body = record {
  id = id;
  version = base + 1;
  blob_id = some body.blob_id;
  blob_size = body.blob_size;
  enc_meta = body.enc_meta;
  deleted = false;
  server_seq = 9;
  updated_at = 70;
}

abbrev pub source : BlobSource ℕ
source = record { get_blob_to_file = λ id r. (err not_found, r) }

abbrev env : Environment ℕ
env = record {
  source = source;
  get_changes = λ cursor limit r. (ok (changes_after cursor), r);
  http_put_blob = λ id bytes r. (ok tt, r);
  http_put_doc = λ id base body r. (ok (applied (apply_push id base body)), r);
  http_delete_doc = λ id base r. (err not_found, r);
  draw = λ r. (draws_of (20 + r), r + 1);
}

abbrev pub reader : BlobReader
reader = record { decrypt = λ mk id bytes. ok bytes }

pull_items-Pending_example :
    get_document 7
      (pull_items toy_aead titled_json env reader writer 0
        (old_item ∷ other_item ∷ [])
        (vault, 0)).1.0.store
    ≡ some row
unfolding get_document
pull_items-Pending_example =
    pull_items-Pending toy_aead titled_json env reader writer 7 0 (old_item ∷ other_item ∷ []) vault
      0 row refl refl (inr (omega arith), (inl (λ e. absurd (omega arith)), tt))
      (λ r e. absurd (omega arith))

false-ne-true : false ≢ true
false-ne-true h = cc

abbrev pages_after : ℕ → ℕ
pages_after ℕ.zero = 1
pages_after (suc n) = 0

fewer :
    (cursor : ℕ) (page : ChangesPage)
    → Path (Result ClientError ChangesPage) (ok (changes_after cursor)) (ok page)
    → page.has_more ≡ true
    → pages_after page.next_since < pages_after cursor
fewer ℕ.zero page h m = let same : changes_after 0 ≡ page = cc in rw (← same) (omega arith)
fewer (suc n) page h m =
    let same : changes_after (suc n) ≡ page = cc in
    absurd (false-ne-true (ap ChangesPage.has_more same ∙ m))

abbrev dwindling : Dwindling env
dwindling = record {
  rest = λ cursor r. pages_after cursor;
  less = λ cursor limit r page h m. fewer cursor page h m;
  draw-same = λ cursor r. refl;
  get_blob_to_file-same = λ cursor id r. refl;
}

abbrev synced : Option (Outcome SyncReport (UnlockedVault × ℕ)) → UnlockedVault
synced none = vault
synced (some answer) = answer.1.0

sync-Settled_example :
    Settled 7 (synced (sync toy_aead titled_json env reader writer 2 (vault, 0))).store
unfolding sync sync_rounds pull pull_pages pull_items pull_item push_once push_ids push_id push_row
    prefetch_keep_offline fetch_rows add_pulled doc_ids apply_pulled_record kv_get kv_set
    upsert_document get_document list_dirty_documents list_documents cache_remove remove_summary
    update_slot same_bytes Option.bind to_string cursor_of pushed_row
sync-Settled_example =
    sync-Settled toy_aead titled_json env reader writer 7 2 vault
      (synced (sync toy_aead titled_json env reader writer 2 (vault, 0))) 0 1
      (record { pulled = 1; pushed = 1; conflicts = 0; warnings = [] }) refl
