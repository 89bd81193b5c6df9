-- ===== src/HttpRequest/Parse/Split.antt =====
-- Parsing a request in two calls (parse, liby_cpp/http/Request.cpp).
use old_tools.Common.{ℕ, suc, ◌+◌, ◌-◌, ◌≤◌, ◌≡◌, refl, ap, subst, ◌∙◌, List, arith}
use old_tools.Common.Run.{Run, done, ◌>>=◌, done-injective, >>=-eq-done}
use old_tools.HttpRequest.{Status, RequestState}
use old_tools.HttpRequest.Parts.{parse_method, parse_request_uri}
use old_tools.HttpRequest.Parse.{
  version_line, all_headers, from_version, from_uri, from_method, from_status, parse_request,
}
use old_tools.HttpRequest.Parse.Resume.{Ends, Resumes, stage-Resumes}
use old_tools.HttpRequest.Parse.Outcome.{
  from_headers-Resumes, parse_method-PartDone, parse_request_uri-PartDone, version_line-PartDone,
}

module _ (memory : List ℕ) (e1 e2 : ℕ) (le : e1 ≤ e2) where
  all_headers-Resumes :
      (r : RequestState) (begin : ℕ) (r' : RequestState) (b' : ℕ)
      → r.status ≡ Status.parsing_headers
      → all_headers memory r begin e1 ≡ done (r', b')
      → Resumes memory e2 r begin (all_headers memory r begin e2) r' b'
  unfolding all_headers
  all_headers-Resumes r begin r' b' status h =
      from_headers-Resumes (suc (e1 - begin)) (suc (e2 - begin)) memory e1 e2 r begin r' b' le
        (omega arith) status h

  from_version-Resumes :
      (r : RequestState) (begin : ℕ) (r' : RequestState) (b' : ℕ)
      → r.status ≡ Status.parsing_version
      → from_version memory r begin e1 ≡ done (r', b')
      → Resumes memory e2 r begin (from_version memory r begin e2) r' b'
  unfolding from_version from_status
  from_version-Resumes r begin r' b' status h =
      stage-Resumes memory 10 e1 e2 Status.parsing_version Status.parsing_headers
        Status.invalid_version (version_line memory) (λ q b. all_headers memory q b e1)
        (λ q b. all_headers memory q b e2) r begin r' b' (λ m q b e. refl) le refl
        (version_line-PartDone memory r begin)
        (λ q b now ended. all_headers-Resumes q b r' b' now ended) status h

  from_uri-Resumes :
      (r : RequestState) (begin : ℕ) (r' : RequestState) (b' : ℕ)
      → r.status ≡ Status.parsing_uri
      → from_uri memory r begin e1 ≡ done (r', b')
      → Resumes memory e2 r begin (from_uri memory r begin e2) r' b'
  unfolding from_uri from_status
  from_uri-Resumes r begin r' b' status h =
      stage-Resumes memory 32 e1 e2 Status.parsing_uri Status.parsing_version Status.invalid_uri
        (parse_request_uri memory) (λ q b. from_version memory q b e1)
        (λ q b. from_version memory q b e2) r begin r' b' (λ m q b e. refl) le refl
        (parse_request_uri-PartDone memory r begin)
        (λ q b now ended. from_version-Resumes q b r' b' now ended) status h

  from_method-Resumes :
      (r : RequestState) (begin : ℕ) (r' : RequestState) (b' : ℕ)
      → r.status ≡ Status.parsing_method
      → from_method memory r begin e1 ≡ done (r', b')
      → Resumes memory e2 r begin (from_method memory r begin e2) r' b'
  unfolding from_method from_status
  from_method-Resumes r begin r' b' status h =
      stage-Resumes memory 32 e1 e2 Status.parsing_method Status.parsing_uri Status.invalid_method
        (parse_method memory) (λ q b. from_uri memory q b e1) (λ q b. from_uri memory q b e2) r
        begin r' b' (λ m q b e. refl) le refl (parse_method-PartDone memory r begin)
        (λ q b now ended. from_uri-Resumes q b r' b' now ended) status h

  ended-Resumes :
      (s : Status) (r : RequestState) (begin : ℕ) (r' : RequestState) (b' : ℕ)
      → Ends s
      → r.status ≡ s
      → ◌≡◌ {A = Run (RequestState × ℕ)} (done (r, begin)) (done (r', b'))
      → Resumes memory e2 r begin (done (r, begin)) r' b'
  ended-Resumes s r begin r' b' ends status h =
      subst (λ a. Resumes memory e2 r begin (done (r, begin)) a.0 a.1) (done-injective h)
        (record {
          again = ap (λ s. from_status s memory r begin e2) status ∙ ends memory r begin e2;
          forward = omega arith;
          counted = refl;
        })

  from_status-Resumes :
      (s : Status) (r : RequestState) (begin : ℕ) (r' : RequestState) (b' : ℕ)
      → r.status ≡ s
      → from_status s memory r begin e1 ≡ done (r', b')
      → Resumes memory e2 r begin (from_status s memory r begin e2) r' b'
  unfolding from_status
  from_status-Resumes Status.parsing_method r begin r' b' status h =
      from_method-Resumes r begin r' b' status h
  from_status-Resumes Status.parsing_uri r begin r' b' status h =
      from_uri-Resumes r begin r' b' status h
  from_status-Resumes Status.parsing_version r begin r' b' status h =
      from_version-Resumes r begin r' b' status h
  from_status-Resumes Status.parsing_headers r begin r' b' status h =
      all_headers-Resumes r begin r' b' status h
  from_status-Resumes Status.good r begin r' b' status h =
      ended-Resumes Status.good r begin r' b' (λ m q b e. refl) status h
  from_status-Resumes Status.invalid_method r begin r' b' status h =
      ended-Resumes Status.invalid_method r begin r' b' (λ m q b e. refl) status h
  from_status-Resumes Status.invalid_uri r begin r' b' status h =
      ended-Resumes Status.invalid_uri r begin r' b' (λ m q b e. refl) status h
  from_status-Resumes Status.invalid_version r begin r' b' status h =
      ended-Resumes Status.invalid_version r begin r' b' (λ m q b e. refl) status h
  from_status-Resumes Status.invalid_header r begin r' b' status h =
      ended-Resumes Status.invalid_header r begin r' b' (λ m q b e. refl) status h

-- If parse of the first bytes of a memory ends, at whatever status, then parse of what it has
-- not consumed, with more bytes of the same memory, does what one call does with all of these
-- bytes.
pub parse_request_again :
    (memory : List ℕ) (r r' : RequestState) (begin e1 e2 : ℕ)
    → e1 ≤ e2
    → parse_request memory r begin e1 ≡ done r'
    → parse_request memory r' (begin + (r'.bytes - r.bytes)) e2 ≡ parse_request memory r begin e2
unfolding parse_request
parse_request_again memory r r' begin e1 e2 le h =
    let ((q, b'), run, same) =
      >>=-eq-done (from_status r.status memory r begin e1) (λ (q, b). done q) h in
    let resumed =
      from_status-Resumes memory e1 e2 le r.status r begin r' b' refl
        (run ∙ ap (λ p. done (p, b')) (done-injective same)) in
    ap (λ b. from_status r'.status memory r' b e2 >>= λ (q, b). done q)
      {x = begin + (r'.bytes - r.bytes)} {y = b'} (omega (arith, resumed.forward, resumed.counted))
    ∙ ap (λ m. m >>= λ (q, b). done q) resumed.again
