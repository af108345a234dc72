-- ===== src/Vaas/Registration.antt =====
-- What RegisterBackend has sent where it succeeds (hook/vaas/hook.go).
use mesos_executor.Common.{
  wrap_err, ℤ, Option, some, List, [], ◌∷◌, In, Str, codes, Result, ok, err, panic, ok_inj,
  panic≢ok, ◌≡◌, ◌≢◌, refl, sym, ap, ◌∙◌, subst, Option-cases, inl, inr,
}
use mesos_executor.Common.Effect.{>>=-eq_ok, lift, ◌>>=◌}
use mesos_executor.Mesos.{Port, TaskInfo}
use mesos_executor.MesosUtils.{get_label_value}
use mesos_executor.Runenv.{Getenv, datacenter}
use mesos_executor.Vaas.Client.{
  Api, Request, Requests, Response, Backend, Dc, Director, get_dc, find_director_id, add_backend,
}
use mesos_executor.Vaas.Client.Calls.{
  Gives, IsDirector, IsGet, IsPost, get_dc-IsGet, find_director_id-IsGet, add_backend-IsPost,
}
use mesos_executor.Vaas.Built.{
  IsPortFor, IsBackendOf, choose_port-IsPortFor, new_backend-IsBackendOf,
}
use mesos_executor.Vaas.{
  State, director_key, choose_port, new_backend, request_backend, post_backend, remember,
  register_director, register_backend,
}

module _ (api : Api) (parse_ip : Str → Option Str) (getenv : Getenv) where
  -- The data centers were asked for, and this is one of them.
  abbrev pub Lists : Requests → Dc → Request → Type 0
  Lists sent dc r =
      IsGet api (codes "/api/v0.1/dc/") [] r
      × (response : Response) × (dcs : List Dc) × Gives api (api.http sent r) api.dcs response dcs
      × In dc dcs

  -- The director was asked for by its name, and the answer has one of that name with this id.
  abbrev pub Directs : Str → Requests → ℤ → Request → Type 0
  Directs director sent id r =
      IsGet api (codes "/api/v0.1/director/") ((codes "name", director) ∷ []) r
      × (response : Response) × (ds : List Director) × Gives api (api.http sent r) api.directors
          response ds
      × IsDirector api director id ds

  -- The requests that lead to a backend: a GET of the data centers, which lists that of the
  -- environment; a GET of the director by its name, which gives its id; and a POST of the task's
  -- backend at its port, which is answered with `created`.
  abbrev pub Requested : TaskInfo → Str → Requests → Requests → Backend → Type 0
  Requested t director sent sent' created =
      (dc : Dc) × (director_id : ℤ) × (port : Port) × (r1 : Request) × (r2 : Request)
      × (r3 : Request) × (sent' ≡ r3 ∷ r2 ∷ r1 ∷ sent)
      × (datacenter getenv ≡ ok dc.symbol)
      × IsPortFor t director port
      × Lists sent dc r1
      × Directs director (r1 ∷ sent) director_id r2
      × (b : Backend) × IsBackendOf api parse_ip getenv t dc director_id port b
      × IsPost api (r2 ∷ r1 ∷ sent) b created r3

  found_director :
      (director : Str) (sent : Requests) (id : ℤ)
      → (find_director_id api director sent).1 ≡ ok id
      → (r : Request) × ((find_director_id api director sent).0 ≡ r ∷ sent)
        × Directs director sent id r
  found_director director sent id h =
      let (r, p, g, response, ds, given, found) = find_director_id-IsGet api director sent id h in
      (r, p, (g, response, ds, given, found))

  wrap_err-eq_ok :
      {A : Type 0} (prefix : Str) (r : Result A) (a : A) → wrap_err prefix r ≡ ok a → r ≡ ok a
  wrap_err-eq_ok prefix (ok b) a h = h
  wrap_err-eq_ok prefix (err e) a h = cc
  wrap_err-eq_ok prefix panic a h = cc

  post_backend-IsPost :
      (t : TaskInfo) (dc : Dc) (id : ℤ) (port : Port) (sent : Requests) (created : Backend)
      → (post_backend api parse_ip getenv t dc id port sent).1 ≡ ok created
      → (r : Request) × ((post_backend api parse_ip getenv t dc id port sent).0 ≡ r ∷ sent)
        × IsPost api sent (new_backend api parse_ip getenv t dc id port) created r
  unfolding post_backend
  post_backend-IsPost t dc id port sent created h =
      let backend = new_backend api parse_ip getenv t dc id port in
      let (added, e, h1, q) =
        >>=-eq_ok
          (λ w. (
            (add_backend api backend w).0,
            wrap_err (codes "unable to register backend with VaaS, ") (add_backend api backend w).1,
          ))
          (λ a. lift (ok a.1)) sent h in
      let (r, p, g) =
        add_backend-IsPost api backend sent added.0 added.1
          (wrap_err-eq_ok (codes "unable to register backend with VaaS, ") _ _ e) in
      (r, q ∙ p, subst (λ x. IsPost api sent backend x r) (ok_inj h1) g)

  -- With the requests made so far as a variable.
  posted :
      (t : TaskInfo) (director : Str) (sent : Requests) (created : Backend) (r1 r2 : Request)
      (dc : Dc) (id : ℤ) (sent2 : Requests)
      → sent2 ≡ r2 ∷ r1 ∷ sent
      → datacenter getenv ≡ ok dc.symbol
      → Lists sent dc r1
      → Directs director (r1 ∷ sent) id r2
      → ((lift (choose_port t director) >>= λ port. post_backend api parse_ip getenv t dc id port)
          sent2).1
        ≡ ok created
      → Requested t director sent
          ((lift (choose_port t director) >>= λ port. post_backend api parse_ip getenv t dc id port)
            sent2).0
          created
  posted t director sent created r1 r2 dc id sent2 e d g1 g2 h =
      let (port, c, h1, q) =
        >>=-eq_ok (lift (choose_port t director))
          (λ port. post_backend api parse_ip getenv t dc id port) sent2 h in
      let (r3, p3, g3) = post_backend-IsPost t dc id port sent2 created h1 in
      (
        dc,
        id,
        port,
        r1,
        r2,
        r3,
        q ∙ p3 ∙ ap (λ rs. r3 ∷ rs) e,
        d,
        choose_port-IsPortFor t director port c,
        g1,
        g2,
        new_backend api parse_ip getenv t dc id port,
        new_backend-IsBackendOf api parse_ip getenv t dc id port,
        subst (λ rs. IsPost api rs (new_backend api parse_ip getenv t dc id port) created r3) e g3,
      )

  request_backend-Requested :
      (t : TaskInfo) (director : Str) (sent : Requests) (created : Backend)
      → (request_backend api parse_ip getenv t director sent).1 ≡ ok created
      → Requested t director sent (request_backend api parse_ip getenv t director sent).0 created
  unfolding request_backend
  request_backend-Requested t director sent created h =
      let (runtime_dc, e0, h0, q0) = >>=-eq_ok (lift (datacenter getenv)) _ sent h in
      let (dc, e1, h1, q1) = >>=-eq_ok (get_dc api runtime_dc) _ sent h0 in
      let (r1, p1, g1, found, listed_by, dcs, given, listed) =
        get_dc-IsGet api runtime_dc sent dc e1 in
      let (id, e2, h2, q2) =
        >>=-eq_ok (find_director_id api director) _ (get_dc api runtime_dc sent).0 h1 in
      let (r2, p2, directed) = found_director director (get_dc api runtime_dc sent).0 id e2 in
      subst (λ w. Requested t director sent w created) (sym (q0 ∙ q1 ∙ q2))
        (posted t director sent created r1 r2 dc id
          (find_director_id api director (get_dc api runtime_dc sent).0).0
          (p2 ∙ ap (λ rs. r2 ∷ rs) p1) (e0 ∙ ap ok (sym found)) (g1, listed_by, dcs, given, listed)
          (subst (λ rs. Directs director rs id r2) p1 directed) h2)

  remember-eq_ok :
      (s : State) (sent : Requests) (r : Result Backend)
      → (remember api parse_ip getenv s sent r).1 ≡ ok []
      → (created : Backend) × (id : ℤ) × (r ≡ ok created)
        × (created.id ≡ some id)
        × (remember api parse_ip getenv s sent r).0
          ≡ record { backend_id = some id; requests = sent }
  unfolding remember
  remember-eq_ok s sent (ok b) h = elim (Option-cases b.id) [
    | inl missing ↦ absurd (panic≢ok (rw (missing, remember) at h))
    | inr (id, e) ↦ (b, id, refl, e, rw (e, remember) refl)
  ]
  remember-eq_ok s sent (err e) h = cc
  remember-eq_ok s sent panic h = cc

  register_director-Requested :
      (t : TaskInfo) (director : Str) (s : State)
      → director ≢ []
      → (register_director api parse_ip getenv t director s).1 ≡ ok []
      → (created : Backend) × (id : ℤ) × (created.id ≡ some id)
        × ((register_director api parse_ip getenv t director s).0.backend_id ≡ some id)
        × Requested t director s.requests
            (register_director api parse_ip getenv t director s).0.requests
            created
  unfolding register_director
  register_director-Requested t [] s n h = absurd (n refl)
  register_director-Requested t (c ∷ director) s n h =
      let made = request_backend api parse_ip getenv t (c ∷ director) s.requests in
      let (created, id, r, e, q) = remember-eq_ok s made.0 made.1 h in
      (
        created,
        id,
        e,
        ap (λ (x : State). x.backend_id) q,
        subst (λ w. Requested t (c ∷ director) s.requests w created)
            (sym (ap (λ (x : State). x.requests) q))
            (request_backend-Requested t (c ∷ director) s.requests created r),
      )

  -- Where RegisterBackend succeeds for a task with a director it has made exactly three requests: a
  -- GET of the data centers, whose answer lists that of the environment; a GET of the director by
  -- its name, whose answer has its id; and a POST of the backend in that data center and under that
  -- director, with the address of the host, the number of the first port labelled frontend-sync:
  -- and the director's name, or else of the first port, the weight of VAAS_INITIAL_WEIGHT or else of
  -- the tags, and the tag of a canary where the task has that label. The hook remembers the id that
  -- the answer to the POST gives.
  pub register_backend-Requested :
      (t : TaskInfo) (s : State)
      → get_label_value t director_key ≢ []
      → (register_backend api parse_ip getenv t s).1 ≡ ok []
      → (created : Backend) × (id : ℤ) × (created.id ≡ some id)
        × ((register_backend api parse_ip getenv t s).0.backend_id ≡ some id)
        × Requested t
            (get_label_value t director_key)
            s.requests
            (register_backend api parse_ip getenv t s).0.requests
            created
  unfolding register_backend
  register_backend-Requested t s n h =
      register_director-Requested t (get_label_value t director_key) s n h
