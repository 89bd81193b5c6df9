-- ===== src/HttpRequest/Parse/Outcome.antt =====
-- What each part of a request leaves, and the lines of its header (parse, liby_cpp/http/Request.cpp).
use old_tools.Common.{
  ℕ, zero, suc, ◌+◌, ◌-◌, ◌≤◌, ◌<◌, ◌≡◌, inl, inr, refl, sym, subst, Bool, true, false, ◌||◌, ltb,
  length, Option, none, some, List, ◌==◌, Bool-cases, arith,
}
use old_tools.Common.Run.{Run, done, exited, ◌>>=◌, done-injective, >>=-eq-done, >>=-done}
use old_tools.HttpRequest.{Status, Method, RequestState, find_first_of, with_status}
use old_tools.HttpRequest.Parts.{
  set_header, with_headers, slice, find_method, set_method, decode_uri, set_uri, minor_version,
  set_version, scan_left, scan_right, store_header, split_header, parse_method, parse_request_uri,
  parse_http_version, parse_header,
}
use old_tools.HttpRequest.Parse.{
  line_end, accept, one_line, version_line, header_line, finished, from_headers, all_headers,
  from_status,
}
use old_tools.HttpRequest.Parse.Search.{if_true, if_false, from_headers_fuel}
use old_tools.HttpRequest.Parse.Resume.{PartDone, Resumes, accept-Resumes, search-Resumes}

absurd_exited {ℓ κ} : {A : Type ℓ} {B : Type κ} {n : ℕ} {a : A} → exited n ≡ done a → B
absurd_exited h = cc

again_done :
    {r : RequestState} {next fail : Status} {a : Bool × RequestState} {flag : Bool}
    {q : RequestState}
    → PartDone r next fail a.0 a.1
    → done a ≡ done (flag, q)
    → PartDone r next fail flag q
again_done {r} {next} {fail} p h = subst (λ b. PartDone r next fail b.0 b.1) (done-injective h) p

set_method-PartDone :
    (r : RequestState) (m : Method)
    → PartDone r Status.parsing_uri Status.invalid_method (set_method r m).0 (set_method r m).1
unfolding set_method
set_method-PartDone r Method.no_method = record { status_of = refl; bytes_of = refl }
set_method-PartDone r Method.get = record { status_of = refl; bytes_of = refl }
set_method-PartDone r Method.post = record { status_of = refl; bytes_of = refl }
set_method-PartDone r Method.put = record { status_of = refl; bytes_of = refl }
set_method-PartDone r Method.options = record { status_of = refl; bytes_of = refl }

pub parse_method-PartDone :
    (memory : List ℕ) (r : RequestState) (begin finish : ℕ) (flag : Bool) (q : RequestState)
    → parse_method memory r begin finish ≡ done (flag, q)
    → PartDone r Status.parsing_uri Status.invalid_method flag q
unfolding parse_method
parse_method-PartDone memory r begin finish flag q h =
    again_done (set_method-PartDone r (find_method (slice memory begin finish))) h

pub parse_request_uri-PartDone :
    (memory : List ℕ) (r : RequestState) (begin finish : ℕ) (flag : Bool) (q : RequestState)
    → parse_request_uri memory r begin finish ≡ done (flag, q)
    → PartDone r Status.parsing_version Status.invalid_uri flag q
unfolding parse_request_uri set_uri
parse_request_uri-PartDone memory r begin finish flag q h =
    let (temp, run, step) =
      >>=-eq-done (decode_uri (finish - begin) memory begin 0) (λ temp. done (set_uri r temp)) h in
    again_done (record { status_of = refl; bytes_of = refl }) step

set_version-PartDone :
    (r : RequestState) (minor : Option ℕ)
    → PartDone r Status.parsing_headers Status.invalid_version
        (set_version r minor).0
        (set_version r minor).1
unfolding set_version
set_version-PartDone r none = record { status_of = refl; bytes_of = refl }
set_version-PartDone r (some minor) = record { status_of = refl; bytes_of = refl }

pub version_line-PartDone :
    (memory : List ℕ) (r : RequestState) (begin finish : ℕ) (flag : Bool) (q : RequestState)
    → version_line memory r begin finish ≡ done (flag, q)
    → PartDone r Status.parsing_headers Status.invalid_version flag q
unfolding version_line parse_http_version
version_line-PartDone memory r begin finish flag q h =
    let (end, run, step) =
      >>=-eq-done (line_end memory finish) (λ end. parse_http_version memory r begin end) h in
    elim (Bool-cases (ltb end begin)) [
      | inl e ↦
          absurd_exited
            (if_true (done (set_version r (minor_version (slice memory begin end)))) e step)
      | inr e ↦
          again_done (set_version-PartDone r (minor_version (slice memory begin end)))
            (if_false (exited 134) e step)
    ]

store_header-PartDone :
    (memory : List ℕ) (r : RequestState) (begin key_end right end : ℕ) (flag : Bool)
    (q : RequestState)
    → r.status ≡ Status.parsing_headers
    → store_header memory r begin key_end right end ≡ done (flag, q)
    → PartDone r Status.parsing_headers Status.invalid_header flag q
unfolding store_header
store_header-PartDone memory r begin key_end right end flag q status h =
    let stored =
      with_headers r (set_header (slice memory begin key_end) (slice memory right end) r.headers) in
    elim (Bool-cases (ltb key_end begin || ltb end right)) [
      | inl e ↦ absurd_exited (if_true (done (true, stored)) e h)
      | inr e ↦
          again_done {r = r} {next = Status.parsing_headers} {fail = Status.invalid_header}
            {a = (true, stored)} (record { status_of = status; bytes_of = refl })
            (if_false (exited 134) e h)
    ]

split_header-PartDone :
    (memory : List ℕ) (r : RequestState) (begin end : ℕ) (mid : Option ℕ) (flag : Bool)
    (q : RequestState)
    → r.status ≡ Status.parsing_headers
    → split_header memory r begin end mid ≡ done (flag, q)
    → PartDone r Status.parsing_headers Status.invalid_header flag q
unfolding split_header
split_header-PartDone memory r begin end none flag q status h =
    again_done {r = r} {next = Status.parsing_headers} {fail = Status.invalid_header}
      {a = (false, with_status r Status.invalid_header)}
      (record { status_of = refl; bytes_of = refl }) h
split_header-PartDone memory r begin end (some mid) flag q status h =
    let (key_end, run, step) =
      >>=-eq-done (scan_left memory mid)
        (λ key_end. scan_right (length memory - (mid + 1)) memory (mid + 1) >>= λ right.
          store_header memory r begin key_end right end)
        h in
    let (right, run', step') =
      >>=-eq-done (scan_right (length memory - (mid + 1)) memory (mid + 1))
        (λ right. store_header memory r begin key_end right end) step in
    store_header-PartDone memory r begin key_end right end flag q status step'

header_line-PartDone :
    (memory : List ℕ) (r : RequestState) (begin finish : ℕ) (flag : Bool) (q : RequestState)
    → r.status ≡ Status.parsing_headers
    → header_line memory r begin finish ≡ done (flag, q)
    → PartDone r Status.parsing_headers Status.invalid_header flag q
unfolding header_line parse_header
header_line-PartDone memory r begin finish flag q status h =
    let (end, run, step) =
      >>=-eq-done (line_end memory finish) (λ end. parse_header memory r begin end) h in
    let (mid, run', step') =
      >>=-eq-done (find_first_of (end - begin) memory begin b':') (split_header memory r begin end)
        step in
    split_header-PartDone memory r begin end mid flag q status step'

pub from_headers-Resumes :
    (f1 f2 : ℕ) (memory : List ℕ) (e1 e2 : ℕ) (r : RequestState) (begin : ℕ) (r' : RequestState)
    (b' : ℕ)
    → e1 ≤ e2
    → e2 - begin < f2
    → r.status ≡ Status.parsing_headers
    → from_headers f1 memory r begin e1 ≡ done (r', b')
    → Resumes memory e2 r begin (from_headers f2 memory r begin e2) r' b'
unfolding from_headers from_status all_headers one_line
from_headers-Resumes zero f2 memory e1 e2 r begin r' b' le enough status h = cc
from_headers-Resumes (suc f1) zero memory e1 e2 r begin r' b' le enough status h =
    absurd (omega arith)
from_headers-Resumes (suc f1) (suc f2) memory e1 e2 r begin r' b' le enough status h =
    let next1 : RequestState → ℕ → Run (RequestState × ℕ) = λ q b. from_headers f1 memory q b e1 in
    let next2 : RequestState → ℕ → Run (RequestState × ℕ) = λ q b. from_headers f2 memory q b e2 in
    search-Resumes memory 10 e1 e2 r begin Status.parsing_headers (one_line memory r begin next1)
      (one_line memory r begin next2) r' b' status le
      (from_headers_fuel (suc (e2 - begin)) (suc f2) memory r begin e2 (omega arith) enough)
      (λ finish low high step. elim (Bool-cases ((begin == finish) || (begin + 1 == finish))) [
        | inl e ↦ rw (e) (
            subst
              (λ a. Resumes memory e2 r begin (done (finished r begin finish, finish + 1)) a.0 a.1)
              (done-injective
                (if_true (header_line memory r begin finish >>= accept next1 begin finish) e step))
              (record { again = refl; forward = omega arith; counted = omega arith }))
        | inr e ↦
            let (a, run, accepted) =
              >>=-eq-done (header_line memory r begin finish) (accept next1 begin finish)
                (if_false (done (finished r begin finish, finish + 1)) e step) in
            rw (e) (
              subst (λ all. Resumes memory e2 r begin all r' b')
                (sym (
                  >>=-done (header_line memory r begin finish) (accept next2 begin finish) run
                    refl))
                (accept-Resumes memory e2 r begin finish Status.parsing_headers
                  Status.invalid_header next1 next2 a.0 a.1 r' b' (λ m q b e. refl) low
                  (header_line-PartDone memory r begin finish a.0 a.1 status run)
                  (λ q now ended.
                    from_headers-Resumes f1 f2 memory e1 e2 q (finish + 1) r' b' le (omega arith)
                      now ended)
                  accepted))
      ])
      h
