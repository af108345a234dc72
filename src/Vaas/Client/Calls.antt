-- ===== src/Vaas/Client/Calls.antt =====
-- What a call of the VaaS client that succeeds has sent and received (hook/vaas/client.go).
use mesos_executor.Common.{
  ℤ, none, some, List, [], ◌∷◌, ◌++◌, Str, codes, str_eq, str_eq_iff, true, false, Bool-cases,
  Option-cases, ok_inj, In, ◌||◌, ltb, ◌≤◌, ◌<◌, Result, ok, err, panic, Result-cases, was_ok,
  was_err, was_panic, err≢ok, panic≢ok, ◌≡◌, refl, sym, ap, ◌∙◌, subst, inl, inr, arith,
}
use mesos_executor.Common.Effect.{>>=-eq_ok, lift}
use mesos_executor.Vaas.Client.{
  Api, Request, Requests, Response, Answer, answered, failed, Body, read, broken, Method, get, post,
  Backend, Dc, Director, director_named, backend_path, dc_path, director_path, new_request,
  with_body, request_to, checked, status_error, decoded, decode_body, decode_read, perform,
  do_request, named_query, find_director_id, dc_named, add_backend, get_dc,
}

module _ (api : Api) where
  -- The answer has a code from 200 to 299, and its body can be read and decoded.
  abbrev pub Gives : {A : Type 0} → Answer → (Str → Result A) → Response → A → Type 0
  Gives answer decode response a =
      (answer ≡ answered response)
      × (200 ≤ response.status_code)
      × (response.status_code < 300)
      × (raw : Str) × (response.body ≡ read raw)
      × (decode raw ≡ ok a)

  decode_body-Gives :
      {A : Type 0} (decode : Str → Result A) (response r : Response) (a : A) (b : Body)
      → decode_body api decode response b ≡ ok (r, a)
      → (response ≡ r) × (raw : Str) × (b ≡ read raw) × (decode raw ≡ ok a)
  unfolding decode_body decode_read
  decode_body-Gives decode response r a (broken e) h = cc
  decode_body-Gives decode response r a (read raw) h = elim (Result-cases (decode raw)) [
    | was_ok x e ↦
        let same : ok (response, x) ≡ ok (r, a) = rw (e, decode_body, decode_read) at h in
        (ap (λ p. p.0) (ok_inj same), raw, refl, e ∙ ap ok (ap (λ p. p.1) (ok_inj same)))
    | was_err m e ↦ absurd (err≢ok (rw (e, decode_body, decode_read) at h))
    | was_panic e ↦ absurd (panic≢ok (rw (e, decode_body, decode_read) at h))
  ]

  pub checked-in_range :
      (request : Request) (response : Response)
      → (ltb response.status_code 200 || ltb 299 response.status_code) ≡ false
      → checked api request (answered response) ≡ (some response, none)
  unfolding checked
  checked-in_range request response good = rw (good, checked) refl

  pub checked-out_of_range :
      (request : Request) (response : Response)
      → (ltb response.status_code 200 || ltb 299 response.status_code) ≡ true
      → (m : Str) × (checked api request (answered response) ≡ (some response, some m))
  unfolding checked status_error
  checked-out_of_range request response bad =
      (status_error api request response, rw (bad, checked) refl)

  checked-Gives :
      {A : Type 0} (request : Request) (decode : Str → Result A) (answer : Answer) (r : Response)
      (a : A)
      → decoded api decode (checked api request answer) ≡ ok (r, a)
      → Gives answer decode r a
  unfolding checked decoded
  checked-Gives request decode (failed response e) r a h = cc
  checked-Gives request decode (answered response) r a h =
      elim (Bool-cases (ltb response.status_code 200 || ltb 299 response.status_code)) [
        | inl bad ↦
            let (m, e) = checked-out_of_range request response bad in
            absurd (err≢ok (subst (λ c. decoded api decode c ≡ ok (r, a)) e h))
        | inr good ↦
            let (same, raw, b, d) = decode_body-Gives decode response r a response.body (
              subst (λ c. decoded api decode c ≡ ok (r, a)) (checked-in_range request response good)
                h) in
            (
              ap answered same,
              subst (λ (x : Response). 200 ≤ x.status_code) same (ground arith),
              subst (λ (x : Response). x.status_code < 300) same (ground arith),
              raw,
              sym (ap (λ (x : Response). x.body) same) ∙ b,
              d,
            )
      ]

  -- A request that succeeds is made once, and its answer is what was decoded.
  pub do_request-Gives :
      {A : Type 0} (decode : Str → Result A) (request : Request) (sent : Requests) (r : Response)
      (a : A)
      → (do_request api decode request sent).1 ≡ ok (r, a)
      → Gives (api.http sent request) decode r a
  unfolding do_request perform
  do_request-Gives decode request sent r a h =
      checked-Gives request decode (api.http sent request) r a h

  -- A GET of the path, with credentials and these further query values.
  abbrev pub IsGet : Str → List (Str × Str) → Request → Type 0
  IsGet path more r =
      (body : Str) × (r ≡ record (request_to api get (api.host ++ path) body) {
        query = (request_to api get (api.host ++ path) body).query ++ more;
      })

  with_body-eq_ok :
      (m : Method) (url : Str) (body : Result Str) (r : Request)
      → with_body api m url body ≡ ok r
      → (b : Str) × (body ≡ ok b) × (r ≡ request_to api m url b)
  unfolding with_body
  with_body-eq_ok m url (ok b) r h = elim (Option-cases (api.bad_url url)) [
    | inl fine ↦ (b, refl, sym (ok_inj (rw (fine, with_body) at h)))
    | inr (e, bad) ↦ absurd (err≢ok (rw (bad, with_body) at h))
  ]
  with_body-eq_ok m url (err e) r h = cc
  with_body-eq_ok m url panic r h = cc

  pub new_request-eq_ok :
      (m : Method) (url : Str) (r : Request)
      → new_request api m url none ≡ ok r
      → (b : Str) × (api.marshal_nil ≡ ok b) × (r ≡ request_to api m url b)
  unfolding new_request
  new_request-eq_ok m url r h = with_body-eq_ok m url api.marshal_nil r h

  new_request-post :
      (url : Str) (backend : Backend) (r : Request)
      → new_request api post url (some backend) ≡ ok r
      → (b : Str) × (api.marshal backend ≡ ok b) × (r ≡ request_to api post url b)
  unfolding new_request
  new_request-post url backend r h = with_body-eq_ok post url (api.marshal backend) r h

  dc_named-found :
      (name : Str) (dcs : List Dc) (dc : Dc)
      → dc_named name dcs ≡ ok dc
      → In dc dcs × (dc.symbol ≡ name)
  unfolding dc_named
  dc_named-found name [] dc h = cc
  dc_named-found name (d ∷ ds) dc h = elim (Bool-cases (str_eq d.symbol name)) [
    | inl hit ↦
        let same : d ≡ dc = ok_inj (rw (hit, dc_named) at h) in
        (inl same, ap (λ (x : Dc). x.symbol) (sym same) ∙ (str_eq_iff d.symbol name).0 hit)
    | inr miss ↦ let (i, e) = dc_named-found name ds dc (rw (miss, dc_named) at h) in (inr i, e)
  ]

  -- One of the directors has the name and the id.
  abbrev pub IsDirector : Str → ℤ → List Director → Type 0
  IsDirector name id ds = (d : Director) × In d ds × (d.name ≡ name) × (d.id ≡ id)

  director_named-found :
      (name : Str) (ds : List Director) (id : ℤ)
      → director_named name ds ≡ ok id
      → IsDirector name id ds
  unfolding director_named
  director_named-found name [] id h = cc
  director_named-found name (d ∷ ds) id h = elim (Bool-cases (str_eq d.name name)) [
    | inl hit ↦
        (d, inl refl, (str_eq_iff d.name name).0 hit, ok_inj (rw (hit, director_named) at h))
    | inr miss ↦
        let (x, i, named, e) = director_named-found name ds id (rw (miss, director_named) at h) in
        (x, inr i, named, e)
  ]

  pub get_dc-IsGet :
      (name : Str) (sent : Requests) (dc : Dc)
      → (get_dc api name sent).1 ≡ ok dc
      → (r : Request) × ((get_dc api name sent).0 ≡ r ∷ sent)
        × IsGet dc_path [] r
        × (dc.symbol ≡ name)
        × (response : Response) × (dcs : List Dc) × Gives (api.http sent r) api.dcs response dcs
        × In dc dcs
  unfolding get_dc do_request perform
  get_dc-IsGet name sent dc h =
      let (r, e, h1, q1) =
        >>=-eq_ok (lift (new_request api get (api.host ++ dc_path) none)) _ sent h in
      let (answer, e2, h2, q2) = >>=-eq_ok (do_request api api.dcs r) _ sent h1 in
      let (b, m, shape) = new_request-eq_ok get (api.host ++ dc_path) r e in
      let (i, named) = dc_named-found name answer.1 dc h2 in
      (
        r,
        q1 ∙ q2,
        (b, shape),
        named,
        answer.0,
        answer.1,
        do_request-Gives api.dcs r sent answer.0 answer.1 e2,
        i,
      )

  pub find_director_id-IsGet :
      (name : Str) (sent : Requests) (id : ℤ)
      → (find_director_id api name sent).1 ≡ ok id
      → (r : Request) × ((find_director_id api name sent).0 ≡ r ∷ sent)
        × IsGet director_path ((codes "name", name) ∷ []) r
        × (response : Response) × (ds : List Director) × Gives
            (api.http sent r)
            api.directors
            response
            ds
        × IsDirector name id ds
  unfolding find_director_id do_request perform
  find_director_id-IsGet name sent id h =
      let (r, e, h1, q1) =
        >>=-eq_ok (lift (new_request api get (api.host ++ director_path) none)) _ sent h in
      let (answer, e2, h2, q2) =
        >>=-eq_ok (do_request api api.directors (named_query api name r)) _ sent h1 in
      let (b, m, shape) = new_request-eq_ok get (api.host ++ director_path) r e in
      (
        named_query api name r,
        q1 ∙ q2,
        (b, ap (named_query api name) shape),
        answer.0,
        answer.1,
        do_request-Gives api.directors (named_query api name r) sent answer.0 answer.1 e2,
        director_named-found name answer.1 id h2,
      )

  -- A POST of the backend that was answered with this one.
  abbrev pub IsPost : Requests → Backend → Backend → Request → Type 0
  IsPost sent backend created r =
      (body : Str) × (response : Response) × (api.marshal backend ≡ ok body)
      × (r ≡ request_to api post (api.host ++ backend_path) body)
      × Gives (api.http sent r) (λ raw. api.backend raw backend) response created

  pub add_backend-IsPost :
      (backend : Backend) (sent : Requests) (location : Str) (created : Backend)
      → (add_backend api backend sent).1 ≡ ok (location, created)
      → (r : Request) × ((add_backend api backend sent).0 ≡ r ∷ sent)
        × IsPost sent backend created r
  unfolding add_backend do_request perform
  add_backend-IsPost backend sent location created h =
      let (r, e, h1, q1) =
        >>=-eq_ok (lift (new_request api post (api.host ++ backend_path) (some backend))) _ sent
          h in
      let (answer, e2, h2, q2) =
        >>=-eq_ok (do_request api (λ raw. api.backend raw backend) r) _ sent h1 in
      let (b, m, shape) = new_request-post (api.host ++ backend_path) backend r e in
      let same : answer.1 ≡ created = ap (λ (p : Str × Backend). p.1) (ok_inj h2) in
      (
        r,
        q1 ∙ q2,
        (
          b,
          answer.0,
          m,
          shape,
          subst (λ x. Gives (api.http sent r) (λ raw. api.backend raw backend) answer.0 x) same
              (do_request-Gives (λ raw. api.backend raw backend) r sent answer.0 answer.1 e2),
        ),
      )
