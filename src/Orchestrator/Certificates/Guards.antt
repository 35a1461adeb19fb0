-- ===== src/Orchestrator/Certificates/Guards.antt =====
-- Who may read, change and remove a certificate.
use clouditor.Prelude.{String, ◌≡◌, ◌≢◌, true, false, Option, none, some, List, [], ◌∷◌, arith}
use clouditor.Status.{ok}
use clouditor.Auth.{AuthorizationStrategy, access_update}
use clouditor.Validate.{Rules}
use clouditor.Query.{equals, in_list, atom, and}
use clouditor.Storage.{Table}
use clouditor.Orchestrator.Certificates.{
  Certificate, CertificateRequest, CertificateIdRequest, is_allowed, get_certificate,
  update_certificate, remove_certificate,
}

module _ {D Ctx : Type 0} (table : Table D Certificate) (authz : AuthorizationStrategy Ctx)
    (ctx : Option Ctx) where
  -- Whatever the database answers, a certificate is given back by its ID only to a caller that may
  -- access its cloud service.
  pub get_certificate-allowed :
      (rules : Rules CertificateIdRequest) (req : CertificateIdRequest) (db after : D)
      (res : Certificate)
      → get_certificate table authz ctx rules (some req) db ≡ (ok res, after)
      → is_allowed (authz.allowed_cloud_services ctx) res.cloud_service_id ≡ true
  unfolding get_certificate
  get_certificate-allowed rules req db after res h = ground arith

  -- What has been checked and done when a certificate has been updated.
  pub record Updated (rules : Rules CertificateRequest) (req : CertificateRequest) (db after : D)
      (res : Certificate) : Type 0 where
    pub valid : rules req ≡ none
    pub access : authz.check_access ctx access_update req.certificate.cloud_service_id ≡ true
    pub known : table.count (atom (equals "id" req.certificate.id) ∷ []) db ≢ ok 0
    pub written :
        table.save req.certificate (atom (equals "Id" req.certificate.id) ∷ []) db ≡ (ok tt, after)

  -- A certificate is updated only for a valid request of a caller that may update the service which
  -- the given certificate names, and only if the database has a certificate with its ID, of whatever
  -- service; it is saved as given.
  pub update_certificate-Updated :
      (rules : Rules CertificateRequest) (req : CertificateRequest) (db after : D)
      (res : Certificate)
      → update_certificate table authz ctx rules (some req) db ≡ (ok res, after)
      → Updated rules req db after res
  unfolding update_certificate
  update_certificate-Updated rules req db after res h = record {
    valid = ground arith;
    access = ground arith;
    known = λ e. ground arith;
    written = ground arith;
  }

  -- A caller that may access only some services removes a certificate only if the database counts one
  -- with its ID among the certificates of these services.
  pub remove_certificate-counted :
      (rules : Rules CertificateIdRequest) (req : CertificateIdRequest) (db after : D)
      (allowed : List String)
      → authz.allowed_cloud_services ctx ≡ (false, allowed)
      → remove_certificate table authz ctx rules (some req) db ≡ (ok tt, after)
      → table.count
          (atom (equals "id" req.certificate_id)
            ∷ and
            ∷ atom (in_list "cloud_service_id" allowed)
            ∷ [])
          db
        ≢ ok 0
  unfolding remove_certificate
  remove_certificate-counted rules req db after allowed some_only h = λ e. ground arith
