-- ===== src/Tests/Api.antt =====
-- Concrete answers of src/capacity/api/error.filter.ts.
pub mod Requests
use invoice_reservation.Prelude.{◌≡◌, refl, true, some, []}
use invoice_reservation.Prelude.Text.{codes, text_eq}
use invoice_reservation.Stream.Json.{Members, end, member, string, nil, item, array, object}
use invoice_reservation.Api.ErrorFilter.{HttpError, http, error, respond, to_validation_details}
use invoice_reservation.Api.Contract.{IsContract, respond-IsContract}

abbrev rejected : Members
rejected =
    member (codes "message")
      (array (item (string (codes "amount must be a string")) (item (string []) nil))) end

abbrev bad_request : HttpError
bad_request = record {
  status = 400;
  payload = object rejected;
  message = codes "Bad Request Exception";
  is_bad_request = true;
}

details_bad_request :
    to_validation_details (object rejected)
    ≡ member (codes "amount") (string (codes "amount must be a string")) end
unfolding to_validation_details text_eq
details_bad_request = refl

unique_violation :
    (respond (codes "id-1") (error (codes "QueryFailedError") (some (codes "23505")))).status ≡ 409
unfolding respond text_eq
unique_violation = refl

respond-IsContract_example : IsContract (respond (codes "id-1") (http bad_request)).body
respond-IsContract_example = respond-IsContract (codes "id-1") (http bad_request)
