-- ===== src/Orchestrator/Certificates.antt =====
-- Certificates: service/orchestrator/certificates.go.
pub mod Guards
mod Tests
use clouditor.Prelude.{
  ℕ, String, Bool, true, false, not, ◌||◌, Option, none, some, List, [], ◌∷◌, map, contains, ◌==ℕ◌,
  if◌then◌else◌,
}
use clouditor.Status.{
  Error, Result, ok, err, panic, status, not_found, internal, permission_denied,
  err_permission_denied, is_record_not_found,
}
use clouditor.Exec.{Exec, pure, raise, lift, gets, modify, require, map_err, ◌>>=◌, ◌>>◌}
use clouditor.Auth.{AuthorizationStrategy, access_create, access_update}
use clouditor.Validate.{Rules, validate}
use clouditor.Query.{equals, in_list, atom, and, join_and, allowed_clauses}
use clouditor.Storage.{Table}
use clouditor.Page.{PageRequest, Wire, paginate_storage, default_pagination_opts}

pub record State : Type 0 where
  pub id : String
  pub state : String
  pub tree_id : String
  pub timestamp : String
  pub certificate_id : String

pub record Certificate : Type 0 where
  pub id : String
  pub name : String
  pub cloud_service_id : String
  pub issue_date : String
  pub expiration_date : String
  pub standard : String
  pub assurance_level : String
  pub cab : String
  pub description : String
  pub states : List State

-- CreateCertificateRequest and UpdateCertificateRequest
pub record CertificateRequest : Type 0 where
  pub certificate : Certificate

-- GetCertificateRequest and RemoveCertificateRequest
pub record CertificateIdRequest : Type 0 where
  pub certificate_id : String

abbrev pub err_certification_not_found : Error
err_certification_not_found = status not_found "certificate not found"

abbrev db_error : Error → Error
db_error e = status internal "database error"

unfoldable pub certificate_error : Error → Error
certificate_error e =
    if is_record_not_found e then err_certification_not_found else status internal "database error"

-- `!all && !slices.Contains(allowed, id)` is an error.
unfoldable pub is_allowed : Bool × List String → String → Bool
is_allowed (all, allowed) id = all || contains allowed id

abbrev without_states : Certificate → Certificate
without_states c = record c { states = [] }

unfoldable pub clear_states : List Certificate × String → List Certificate × String
clear_states (certificates, token) = (map without_states certificates, token)

-- The state of the service is the database.
module _ {D : Type 0} (table : Table D Certificate) where
  unfoldable pub check_existence : CertificateIdRequest → Exec D (Unit {0})
  check_existence req = do
    db ← gets (λ s. s)
    count ← map_err db_error (lift (table.count (atom (equals "Id" req.certificate_id) ∷ []) db))
    require (not (count ==ℕ 0)) err_certification_not_found

  unfoldable pub list_public_certificates :
      Wire → Rules PageRequest → Option PageRequest → Exec D (List Certificate × String)
  unfolding validate clear_states
  list_public_certificates w rules request = do
    req ← lift (validate rules request)
    db ← gets (λ s. s)
    page ←
        map_err (λ e. status internal "could not paginate results")
          (lift (paginate_storage w req (table.list [] db) default_pagination_opts))
    pure (clear_states page)

  module _ {Ctx : Type 0} (authz : AuthorizationStrategy Ctx) (ctx : Option Ctx) where
    unfoldable pub create_certificate :
        Rules CertificateRequest → Option CertificateRequest → Exec D Certificate
    unfolding validate
    create_certificate rules request = do
      req ← lift (validate rules request)
      require (authz.check_access ctx access_create req.certificate.cloud_service_id)
          err_permission_denied
      map_err (λ e. status internal "could not add certificate to the database")
          (table.create req.certificate)
      pure req.certificate

    unfoldable pub get_certificate :
        Rules CertificateIdRequest → Option CertificateIdRequest → Exec D Certificate
    unfolding validate certificate_error is_allowed
    get_certificate rules request = do
      req ← lift (validate rules request)
      db ← gets (λ s. s)
      res ←
          map_err certificate_error
            (lift (table.get (atom (equals "Id" req.certificate_id) ∷ []) db))
      require (is_allowed (authz.allowed_cloud_services ctx) res.cloud_service_id)
          err_permission_denied
      pure res

    unfoldable pub list_certificates :
        Wire → Rules PageRequest → Option PageRequest → Exec D (List Certificate × String)
    unfolding validate
    list_certificates w rules request = do
      req ← lift (validate rules request)
      db ← gets (λ s. s)
      map_err (λ e. status internal "could not paginate results")
          (lift (
            paginate_storage w req
              (table.list (join_and (allowed_clauses (authz.allowed_cloud_services ctx))) db)
              default_pagination_opts))

    unfoldable pub update_certificate :
        Rules CertificateRequest → Option CertificateRequest → Exec D Certificate
    unfolding validate
    update_certificate rules request = do
      req ← lift (validate rules request)
      require (authz.check_access ctx access_update req.certificate.cloud_service_id)
          err_permission_denied
      db ← gets (λ s. s)
      count ← map_err db_error (lift (table.count (atom (equals "id" req.certificate.id) ∷ []) db))
      require (not (count ==ℕ 0)) err_certification_not_found
      map_err db_error (table.save req.certificate (atom (equals "Id" req.certificate.id) ∷ []))
      pure req.certificate

    -- The check of a caller that may access only some services.
    unfoldable pub check_some : Bool × List String → CertificateIdRequest → Exec D (Unit {0})
    check_some (true, allowed) req = pure tt
    check_some (false, allowed) req = do
      db ← gets (λ s. s)
      count ← map_err db_error (
          lift (
            table.count
              (atom (equals "id" req.certificate_id)
                ∷ and
                ∷ atom (in_list "cloud_service_id" allowed)
                ∷ [])
              db))
      require (not (count ==ℕ 0)) err_permission_denied

    unfoldable pub check_authorization : CertificateIdRequest → Exec D (Unit {0})
    unfolding check_some
    check_authorization req = check_some (authz.allowed_cloud_services ctx) req

    unfoldable pub remove_certificate :
        Rules CertificateIdRequest → Option CertificateIdRequest → Exec D (Unit {0})
    unfolding validate check_existence check_authorization
    remove_certificate rules request = do
      req ← lift (validate rules request)
      check_existence req
      check_authorization req
      map_err db_error (table.delete (atom (equals "Id" req.certificate_id) ∷ []))
