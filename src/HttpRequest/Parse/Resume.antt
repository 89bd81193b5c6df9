-- ===== src/HttpRequest/Parse/Resume.antt =====
-- What a second call with more bytes does (parse, liby_cpp/http/Request.cpp).
use old_tools.Common.{
  ℕ, ◌+◌, ◌-◌, ◌≤◌, ◌<◌, ◌≡◌, refl, ap, sym, subst, ◌∙◌, Bool, true, false, Option, none, some,
  List, if◌then◌else◌, arith,
}
use old_tools.Common.Run.{Run, done, ◌>>=◌, done-injective, >>=-eq-done, >>=-done}
use old_tools.HttpRequest.{Status, RequestState, find_first_of, consumed}
use old_tools.HttpRequest.Parse.{if_found, search, accept, stage, from_status}
use old_tools.HttpRequest.Parse.Search.{find_first_of_lt, find_first_of_more}

-- No further call does anything: the request is complete or wrong.
abbrev pub Ends : Status → Type 0
Ends s =
    (memory : List ℕ) (r : RequestState) (begin end : ℕ)
    → from_status s memory r begin end ≡ done (r, begin)

-- What a part leaves: the status that follows it, or the one of its error
pub record PartDone (r : RequestState) (next fail : Status) (flag : Bool) (r' : RequestState)
    : Type 0 where
  pub status_of : r'.status ≡ (if flag then next else fail)
  pub bytes_of : r'.bytes ≡ r.bytes

-- The request `r'` at `b'`, with more bytes, goes on as `all` does, and has counted its bytes.
pub record Resumes (memory : List ℕ) (end : ℕ) (r : RequestState) (begin : ℕ)
    (all : Run (RequestState × ℕ)) (r' : RequestState) (b' : ℕ) : Type 0 where
  pub again : from_status r'.status memory r' b' end ≡ all
  pub forward : begin ≤ b'
  pub counted : r'.bytes + begin ≡ r.bytes + b'

-- What the first call did with a part that it found
pub accept-Resumes :
    (memory : List ℕ) (end : ℕ) (r : RequestState) (begin finish : ℕ) (next fail : Status)
    (f g : RequestState → ℕ → Run (RequestState × ℕ)) (flag : Bool) (part r' : RequestState)
    (b' : ℕ)
    → Ends fail
    → begin ≤ finish
    → PartDone r next fail flag part
    → ((q : RequestState)
        → q.status ≡ next
        → f q (finish + 1) ≡ done (r', b')
        → Resumes memory end q (finish + 1) (g q (finish + 1)) r' b')
    → accept f begin finish (flag, part) ≡ done (r', b')
    → Resumes memory end r begin (accept g begin finish (flag, part)) r' b'
unfolding accept
accept-Resumes memory end r begin finish next fail f g true part r' b' ends le p rest h =
    let resumed = rest (consumed part begin finish) p.status_of h in
    record {
      again = resumed.again;
      forward = omega (arith, resumed.forward);
      counted = omega (arith, resumed.counted, p.bytes_of);
    }
accept-Resumes memory end r begin finish next fail f g false part r' b' ends le p rest h =
    subst (λ a. Resumes memory end r begin (done (part, begin)) a.0 a.1) (done-injective h)
      (record {
        again =
            ap (λ s. from_status s memory part begin end) p.status_of ∙ ends memory part begin end;
        forward = omega arith;
        counted = omega (arith, p.bytes_of);
      })

-- A search of more bytes, by what the first one found
found-Resumes :
    (memory : List ℕ) (c e1 e2 : ℕ) (r : RequestState) (begin : ℕ) (s : Status)
    (f g : ℕ → Run (RequestState × ℕ)) (r' : RequestState) (b' : ℕ)
    → r.status ≡ s
    → e1 ≤ e2
    → from_status s memory r begin e2 ≡ search memory c r begin e2 g
    → ((finish : ℕ)
        → begin ≤ finish
        → finish < e1
        → f finish ≡ done (r', b')
        → Resumes memory e2 r begin (g finish) r' b')
    → (o : Option ℕ) → find_first_of (e1 - begin) memory begin c ≡ done o
    → if_found r begin f o ≡ done (r', b')
    → Resumes memory e2 r begin (search memory c r begin e2 g) r' b'
unfolding search if_found
found-Resumes memory c e1 e2 r begin s f g r' b' status le self rest none found step =
    subst (λ a. Resumes memory e2 r begin (search memory c r begin e2 g) a.0 a.1)
      (done-injective step)
      (record {
        again = ap (λ s. from_status s memory r begin e2) status ∙ self;
        forward = omega arith;
        counted = refl;
      })
found-Resumes memory c e1 e2 r begin s f g r' b' status le self rest (some finish) found step =
    let (low, high) = find_first_of_lt (e1 - begin) memory begin c finish found in
    let more =
      find_first_of_more (e1 - begin) (e2 - begin) memory begin c finish (omega arith) found in
    subst (λ all. Resumes memory e2 r begin all r' b')
      (sym (>>=-done (find_first_of (e2 - begin) memory begin c) (if_found r begin g) more refl))
      (rest finish low (omega arith) step)

pub search-Resumes :
    (memory : List ℕ) (c e1 e2 : ℕ) (r : RequestState) (begin : ℕ) (s : Status)
    (f g : ℕ → Run (RequestState × ℕ)) (r' : RequestState) (b' : ℕ)
    → r.status ≡ s
    → e1 ≤ e2
    → from_status s memory r begin e2 ≡ search memory c r begin e2 g
    → ((finish : ℕ)
        → begin ≤ finish
        → finish < e1
        → f finish ≡ done (r', b')
        → Resumes memory e2 r begin (g finish) r' b')
    → search memory c r begin e1 f ≡ done (r', b')
    → Resumes memory e2 r begin (search memory c r begin e2 g) r' b'
unfolding search
search-Resumes memory c e1 e2 r begin s f g r' b' status le self rest h =
    let (o, found, step) =
      >>=-eq-done (find_first_of (e1 - begin) memory begin c) (if_found r begin f) h in
    found-Resumes memory c e1 e2 r begin s f g r' b' status le self rest o found step

-- A stage of the request
pub stage-Resumes :
    (memory : List ℕ) (c e1 e2 : ℕ) (s next fail : Status)
    (part : RequestState → ℕ → ℕ → Run (Bool × RequestState))
    (f g : RequestState → ℕ → Run (RequestState × ℕ)) (r : RequestState) (begin : ℕ)
    (r' : RequestState) (b' : ℕ)
    → Ends fail
    → e1 ≤ e2
    → from_status s memory r begin e2 ≡ stage memory c part g r begin e2
    → ((finish : ℕ) (flag : Bool) (q : RequestState)
        → part r begin finish ≡ done (flag, q)
        → PartDone r next fail flag q)
    → ((q : RequestState) (b : ℕ)
        → q.status ≡ next
        → f q b ≡ done (r', b')
        → Resumes memory e2 q b (g q b) r' b')
    → r.status ≡ s
    → stage memory c part f r begin e1 ≡ done (r', b')
    → Resumes memory e2 r begin (stage memory c part g r begin e2) r' b'
unfolding stage
stage-Resumes memory c e1 e2 s next fail part f g r begin r' b' ends le self parts rest status h =
    search-Resumes memory c e1 e2 r begin s
      (λ finish. part r begin finish >>= accept f begin finish)
      (λ finish. part r begin finish >>= accept g begin finish) r' b' status le self
      (λ finish low high step.
        let (a, run, accepted) = >>=-eq-done (part r begin finish) (accept f begin finish) step in
        subst (λ all. Resumes memory e2 r begin all r' b')
          (sym (>>=-done (part r begin finish) (accept g begin finish) run refl))
          (accept-Resumes memory e2 r begin finish next fail f g a.0 a.1 r' b' ends low
            (parts finish a.0 a.1 run) (λ q. rest q (finish + 1)) accepted))
      h
