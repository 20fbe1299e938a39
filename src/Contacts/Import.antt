-- ===== src/Contacts/Import.antt =====
-- core/services/contact_service.go: `BulkImport`.
use mathlib.Core.Path.{subst}
use spur_messaging.Prelude.{
  ℕ, suc, ◌+◌, String, true, false, not, ◌&&◌, ◌≡◌, refl, ◌∙◌, List, [], ◌∷◌, ◌++◌, is_empty,
  if◌then◌else◌, deref, length, length-append, arith,
}
use spur_messaging.Domain.Errors.{error_text}
use spur_messaging.Domain.Message.{Uuid}
use spur_messaging.Calls.{Result, ok, err, Op, pure, ◌>>=◌, attempt, bind_cases}
use spur_messaging.Contacts.Env.{
  CreateContactRequest, ContactCall, ContactHistory, ContactEnv, created_contact,
}
use spur_messaging.Contacts.Records.{is_e164}
use spur_messaging.Contacts.Service.{phone_is_taken, email_is_taken, insert_contact}

pub record ImportRowError : Type 0 where
  pub row : ℕ
  pub field : String
  pub message : String

pub record BulkImportResult : Type 0 where
  pub total : ℕ
  pub imported : ℕ
  pub duplicates : ℕ
  pub errors : List ImportRowError

-- What one turn of the loop comes to.
pub data RowOutcome : Type 0 where
  was_imported was_duplicate : RowOutcome
  was_error : String → String → RowOutcome

abbrev pub count_outcome : ℕ → RowOutcome → BulkImportResult → BulkImportResult
count_outcome row was_imported r = record r { imported = suc r.imported }
count_outcome row was_duplicate r = record r { duplicates = suc r.duplicates }
count_outcome row (was_error field message) r = record r {
  errors = r.errors ++ (record { row = row; field = field; message = message } ∷ []);
}

-- How many contacts were stored.
abbrev pub stored_count : ContactHistory → ℕ
stored_count [] = 0
stored_count (created_contact c (ok row) ∷ h) = suc (stored_count h)
stored_count (_ ∷ h) = stored_count h

module _ (env : ContactEnv) (tenant_id : Uuid) where
  -- One turn of the loop.
  unfoldable pub import_row : CreateContactRequest → Op ContactCall RowOutcome
  unfolding phone_is_taken email_is_taken is_e164
  import_row req =
      let phone = deref req.phone in
      let address = deref req.email_address in
      if is_empty phone && is_empty address
      then pure (was_error "phone/email" "phone or email is required")
      else if not (is_empty phone) && not (is_e164 phone)
      then pure (was_error "phone" "phone must be E.164 format (e.g. +919810914244)")
      else (do
        phone_taken ← phone_is_taken env tenant_id (not (is_empty phone)) phone
        elim phone_taken [
          | true ↦ pure was_duplicate
          | false ↦ do
            email_taken ← email_is_taken env tenant_id (not (is_empty address)) address
            elim email_taken [
              | true ↦ pure was_duplicate
              | false ↦ do
                outcome ← attempt (insert_contact env tenant_id req)
                elim outcome [
                  | ok contact ↦ pure was_imported
                  | err e ↦ pure (was_error "" (error_text e))
                ]
            ]
        ])

  import_rows : ℕ → List CreateContactRequest → BulkImportResult → Op ContactCall BulkImportResult
  import_rows row [] r = pure r
  import_rows row (req ∷ reqs) r = do
    outcome ← import_row req
    import_rows (suc row) reqs (count_outcome row outcome r)

  -- `BulkImport`; rows are counted from 1.
  unfoldable pub bulk_import : List CreateContactRequest → Op ContactCall BulkImportResult
  unfolding import_row import_rows
  bulk_import reqs =
      import_rows 1 reqs (record { total = length reqs; imported = 0; duplicates = 0; errors = [] })

  abbrev imported_of : RowOutcome → ℕ
  imported_of was_imported = 1
  imported_of _ = 0

  -- A row always comes to an outcome, and stores a contact just where it is imported.
  abbrev Counts : Result RowOutcome → (before after : ℕ) → Type 0
  Counts (ok o) before after = after ≡ imported_of o + before
  Counts (err e) before after = ⊥

  row_lem :
      (req : CreateContactRequest) (h : ContactHistory)
      → Counts (import_row req h).0 (stored_count h) (stored_count (import_row req h).1)
  unfolding import_row
  row_lem req h = ground arith

  counted : BulkImportResult → ℕ
  counted r = r.imported + r.duplicates + length r.errors

  count_lem :
      (row : ℕ) (o : RowOutcome) (r : BulkImportResult)
      → (counted (count_outcome row o r) ≡ suc (counted r))
        × ((count_outcome row o r).imported ≡ imported_of o + r.imported)
        × ((count_outcome row o r).total ≡ r.total)
  unfolding counted
  count_lem row was_imported r = (omega arith, omega arith, refl)
  count_lem row was_duplicate r = (omega arith, omega arith, refl)
  count_lem row (was_error field message) r = (
    omega (
      arith,
      length-append r.errors (record { row = row; field = field; message = message } ∷ []),
    ),
    omega arith,
    refl,
  )

  -- What a run over some rows adds to the result and to the store.
  abbrev Tallies : ℕ → BulkImportResult → ℕ → Result BulkImportResult × ContactHistory → Type 0
  Tallies rows r stored out =
      (r' : BulkImportResult) × (out.0 ≡ ok r')
      × (r'.total ≡ r.total)
      × (counted r' ≡ counted r + rows)
      × (stored_count out.1 + r.imported ≡ r'.imported + stored)

  rows_tally :
      (row : ℕ) (reqs : List CreateContactRequest) (r : BulkImportResult) (h : ContactHistory)
      → Tallies (length reqs) r (stored_count h) (import_rows row reqs r h)
  unfolding import_rows
  rows_tally row [] r h = (r, refl, refl, omega arith, omega arith)
  rows_tally row (req ∷ reqs) r h =
      bind_cases (import_row req) (λ o. import_rows (suc row) reqs (count_outcome row o r)) h
        (Tallies (suc (length reqs)) r (stored_count h))
        (λ e p. absurd (
          subst (λ x. Counts x (stored_count h) (stored_count (import_row req h).1)) p
            (row_lem req h)))
        λ o p.
          let stored =
            subst (λ x. Counts x (stored_count h) (stored_count (import_row req h).1)) p
              (row_lem req h) in
          let (r', done, total, counts, kept) =
            rows_tally (suc row) reqs (count_outcome row o r) (import_row req h).1 in
          let (one, more, same) = count_lem row o r in
          (r', done, total ∙ same, omega arith, omega arith)

  -- An import of any list answers with a result, never with an error. Its total is the number of
  -- rows, each row is counted exactly once as imported, duplicate or error, and as many contacts
  -- were stored as it says were imported, whichever lookups and inserts fail.
  pub bulk_import_tally :
      (reqs : List CreateContactRequest) (h : ContactHistory)
      → (r : BulkImportResult) × ((bulk_import reqs h).0 ≡ ok r)
        × (r.total ≡ length reqs)
        × (r.imported + r.duplicates + length r.errors ≡ r.total)
        × (stored_count (bulk_import reqs h).1 ≡ r.imported + stored_count h)
  unfolding bulk_import counted
  bulk_import_tally reqs h =
      let (r, done, total, counts, kept) = rows_tally 1 reqs _ h in
      (r, done, total, ground arith, omega arith)
