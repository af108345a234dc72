-- ===== src/Vaas/Client/Deletion.antt =====
-- DeleteBackend (hook/vaas/client.go), for every answer that its requests may get.
use mesos_executor.Common.{
  ℤ, Option, none, some, [], ◌∷◌, ◌++◌, Str, codes, print_ℤ, true, false, Bool-cases, ◌==◌, ◌||◌,
  ltb, ◌≤◌, ◌<◌, arith, Result, ok, err, Result-cases, was_ok, was_err, was_panic, ◌≡◌, ◌≢◌, refl,
  sym, ap, ◌∙◌, ◌↔◌, ◌⊎◌, inl, inr, subst,
}
use mesos_executor.Common.Effect.{>>=-eq_ok}
use mesos_executor.Vaas.Client.{
  Api, Request, Requests, Response, Answer, answered, failed, read, delete, new_request, with_body,
  request_to, prefer_async, consumed, is_not_found, checked, perform, do_request, decoded,
  decode_body, decode_read, nothing, delete_after, delete_again, delete_request, delete_url,
  delete_backend,
}
use mesos_executor.Vaas.Client.Calls.{do_request-Gives, checked-in_range, checked-out_of_range}

-- The answer has the code 404, whether or not an error comes with it.
abbrev pub IsMissing : Answer → Type 0
IsMissing answer =
    (u : Response) × (u.status_code ≡ 404)
    × ((answer ≡ answered u) ⊎ ((m : Str) × (answer ≡ failed (some u) m)))

-- An error other than that: of the connection, or a code that is not from 200 to 299.
abbrev pub IsRefused : Answer → Type 0
IsRefused answer =
    ((m : Str) × (answer ≡ failed none m))
    ⊎ ((u : Response) × (m : Str) × (answer ≡ failed (some u) m) × (u.status_code ≢ 404))
    ⊎ ((u : Response) × (answer ≡ answered u)
        × (u.status_code ≢ 404)
        × ((u.status_code < 200) ⊎ (299 < u.status_code)))

-- A code from 200 to 299.
abbrev pub IsFine : Answer → Type 0
IsFine answer =
    (u : Response) × (answer ≡ answered u) × (200 ≤ u.status_code) × (u.status_code ≤ 299)

-- A code from 200 to 299, and a body that can be read.
abbrev pub IsAccepted : Answer → Type 0
IsAccepted answer =
    (u : Response) × (answer ≡ answered u)
    × (200 ≤ u.status_code)
    × (u.status_code < 300)
    × (raw : Str) × (u.body ≡ read raw)

-- What deleting with the request `r` comes to, where its first answer is `first`; the request is
-- made again without its body, which was read.
abbrev pub DeletesBy :
    (Requests → Request → Answer)
    → Request
    → Requests
    → Answer
    → Requests × Result (Unit {0})
    → Type 0
DeletesBy http r sent first outcome =
    (IsMissing first × (outcome ≡ (r ∷ sent, ok tt)))
    ⊎ (IsRefused first × (m : Str) × (outcome ≡ (r ∷ sent, err m)))
    ⊎ (IsFine first
        × (outcome.0 ≡ record r { body = [] } ∷ r ∷ sent)
        × ((outcome.1 ≡ ok tt) ↔ IsAccepted (http (r ∷ sent) (record r { body = [] }))))

module _ (api : Api) where
  -- A DELETE of the backend with this id, which need not wait for it to be done.
  abbrev pub IsDeleteOf : ℤ → Request → Type 0
  IsDeleteOf id r =
      (r.method ≡ delete)
      × (r.url ≡ api.host ++ (codes "/api/v0.1/backend/" ++ (print_ℤ id ++ codes "/")))
      × (r.prefer ≡ some (codes "respond-async"))

  -- What deleting the backend comes to, after earlier requests.
  abbrev pub Deletes : ℤ → Requests → Requests × Result (Unit {0}) → Type 0
  Deletes id sent outcome =
      (r : Request) × IsDeleteOf id r × DeletesBy api.http r sent (api.http sent r) outcome

  do_request-IsAccepted :
      (r : Request) (sent : Requests) (u : Response)
      → api.http sent r ≡ answered u
      → 200 ≤ u.status_code
      → u.status_code < 300
      → (raw : Str) × (u.body ≡ read raw)
      → (do_request api (nothing api) r sent).1 ≡ ok (u, tt)
  unfolding do_request perform decoded decode_body decode_read
  do_request-IsAccepted r sent u e low high (raw, b) =
      ap (decoded api (nothing api))
        (ap (checked api r) e ∙ checked-in_range api r u (ground arith))
      ∙ ap (decode_body api (nothing api) u) b

  delete_after-IsAccepted :
      (r : Request) (sent : Requests)
      → ((delete_after api r none sent).1 ≡ ok tt) ↔ IsAccepted (api.http sent (consumed api r))
  unfolding delete_after
  delete_after-IsAccepted r sent = (
    λ h.
        let (a, e, h1, q) = >>=-eq_ok (do_request api (nothing api) (consumed api r)) _ sent h in
        let (answer, low, high, raw, b, d) =
          do_request-Gives api (nothing api) (consumed api r) sent a.0 a.1 e in
        (a.0, answer, low, high, raw, b),
    λ (u, e, low, high, raw, b).
        rw (do_request-IsAccepted (consumed api r) sent u e low high (raw, b)) refl,
  )

  delete_again-missing :
      (r : Request) (response : Option Response) (e : Option Str) (sent : Requests)
      → is_not_found response ≡ true
      → delete_again api r (response, e) sent ≡ (sent, ok tt)
  unfolding delete_again
  delete_again-missing r response e sent h = rw (h, delete_again) refl

  delete_again-other :
      (r : Request) (response : Option Response) (e : Option Str) (sent : Requests)
      → is_not_found response ≡ false
      → delete_again api r (response, e) sent ≡ delete_after api r e sent
  unfolding delete_again
  delete_again-other r response e sent h = rw (h, delete_again) refl

  delete_after-twice :
      (r : Request) (sent : Requests) → (delete_after api r none sent).0 ≡ consumed api r ∷ sent
  unfolding delete_after do_request perform
  delete_after-twice r sent =
      elim (Result-cases (do_request api (nothing api) (consumed api r) sent).1) [
        | was_ok a e ↦ rw (e, delete_after) refl
        | was_err m e ↦ rw (e, delete_after) refl
        | was_panic e ↦ rw (e, delete_after) refl
      ]

  delete_again-failed :
      (r : Request) (sent : Requests) (response : Option Response) (m : Str)
      → DeletesBy api.http r sent
          (failed response m)
          (delete_again api r (checked api r (failed response m)) (r ∷ sent))
  unfolding checked delete_after
  delete_again-failed r sent none m =
      inr (inl (inl (m, refl), m, delete_again-other r none (some m) (r ∷ sent) refl))
  delete_again-failed r sent (some u) m = elim (Bool-cases (u.status_code == 404)) [
    | inl missing ↦ inl (
      (u, ground arith, inr (m, refl)),
      delete_again-missing r (some u) (some m) (r ∷ sent) missing,
    )
    | inr other ↦ inr (
        inl (
          inr (inl (u, m, refl, ground arith)),
          m,
          delete_again-other r (some u) (some m) (r ∷ sent) other,
        ))
  ]

  delete_again-answered :
      (r : Request) (sent : Requests) (u : Response)
      → DeletesBy api.http r sent
          (answered u)
          (delete_again api r (checked api r (answered u)) (r ∷ sent))
  unfolding delete_after
  delete_again-answered r sent u =
      elim (Bool-cases (ltb u.status_code 200 || ltb 299 u.status_code)) [
        | inl bad ↦
            let (m, e) = checked-out_of_range api r u bad in
            subst (λ c. DeletesBy api.http r sent (answered u) (delete_again api r c (r ∷ sent)))
              (sym e)
              (elim (Bool-cases (u.status_code == 404)) [
                | inl missing ↦ inl (
                  (u, ground arith, inl refl),
                  delete_again-missing r (some u) (some m) (r ∷ sent) missing,
                )
                | inr other ↦ inr (
                    inl (
                      inr (inr (u, refl, ground arith, ground arith)),
                      m,
                      delete_again-other r (some u) (some m) (r ∷ sent) other,
                    ))
              ])
        | inr good ↦
            let found : (u.status_code == 404) ≡ false = ground arith in
            let then_again = delete_again-other r (some u) none (r ∷ sent) found in
            subst (λ c. DeletesBy api.http r sent (answered u) (delete_again api r c (r ∷ sent)))
              (sym (checked-in_range api r u good))
              (subst (λ o. DeletesBy api.http r sent (answered u) o) (sym then_again)
                (inr (
                  inr (
                    (u, refl, ground arith, ground arith),
                    delete_after-twice r (r ∷ sent),
                    delete_after-IsAccepted r (r ∷ sent),
                  ))))
      ]

  delete_again-DeletesBy :
      (r : Request) (sent : Requests) (answer : Answer)
      → DeletesBy api.http r sent answer (delete_again api r (checked api r answer) (r ∷ sent))
  delete_again-DeletesBy r sent (failed response m) = delete_again-failed r sent response m
  delete_again-DeletesBy r sent (answered u) = delete_again-answered r sent u

  delete_request-DeletesBy :
      (r : Request) (sent : Requests)
      → DeletesBy api.http r sent (api.http sent r) (delete_request api r sent)
  unfolding delete_request perform
  delete_request-DeletesBy r sent = delete_again-DeletesBy r sent (api.http sent r)

  new_request-none :
      (url body : Str)
      → api.marshal_nil ≡ ok body
      → api.bad_url url ≡ none
      → new_request api delete url none ≡ ok (request_to api delete url body)
  unfolding new_request with_body
  new_request-none url body encoded good =
      ap (with_body api delete url) encoded
      ∙ ap
          (λ (e : Option Str). elim e as (λ x. Result Request) [
            | none ↦ ok (request_to api delete url body)
            | some e ↦ err e
          ])
          good

  pub delete_backend-Deletes :
      (id : ℤ) (sent : Requests) (body : Str)
      → api.marshal_nil ≡ ok body
      → ((url : Str) → api.bad_url url ≡ none)
      → Deletes id sent (delete_backend api id sent)
  unfolding delete_backend delete_url
  delete_backend-Deletes id sent body encoded good =
      let url : Str = api.host ++ (codes "/api/v0.1/backend/" ++ (print_ℤ id ++ codes "/")) in
      let r : Request = prefer_async (request_to api delete url body) in
      (
        r,
        (refl, refl, refl),
        rw (new_request-none url body encoded (good url), delete_backend)
            (delete_request-DeletesBy r sent),
      )
