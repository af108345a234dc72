-- ===== src/Health/Check.antt =====
-- The checks of health_checker.go: which one is made, with which request, and when it passes.
-- Running a command, dialling and requesting are parameters, and so is the host's address (the
-- text of runenv.IP, none where it is nil).
use mesos_executor.Common.{
  ℕ, ◌≤◌, ◌<◌, Option, none, some, List, [], ◌∷◌, ◌++◌, map, Str, codes, ◌||◌, if◌then◌else◌, ltb,
  leb, print_ℕ, ◌≡◌, refl, ◌↔◌, arith,
}
use mesos_executor.Mesos.{HealthCheck, CommandInfo, HttpCheckInfo, Variable}

-- The parts of url.URL that the check sets.
pub record Url : Type 0 where
  pub scheme : Str
  pub host : Str
  pub path : Str

-- exec.CommandContext with its environment.
pub record CheckCommand : Type 0 where
  pub args : List Str
  pub env : List Str

-- How a command ends: with a zero code, by its timeout, or with an error.
pub data CommandEnd : Type 0 where
  exited timed_out : CommandEnd
  errored : Str → CommandEnd

-- What a request comes to: a status code, or the error.
pub data Response : Type 0 where
  answered : ℕ → Response
  no_answer : Str → Response

pub record Network : Type 0 where
  pub ip : Option Str
  pub environ : List Str
  pub run : CheckCommand → ℕ → CommandEnd
  -- net.DialTimeout: none, or the error
  pub dial : Str → ℕ → Option Str
  -- http.Client.Get
  pub get : Url → ℕ → Response
  -- a duration as fmt prints it
  pub format_duration : ℕ → Str
  -- what GetTimeoutSeconds of mesos-go gives for a check without a timeout, as a duration
  pub default_timeout : ℕ

abbrev pub default_domain : Str
default_domain = codes "127.0.0.1"

seconds_of : ℕ → Option ℕ → ℕ
seconds_of default none = default
seconds_of default (some n) = n

host_of : Option Str → Str
host_of none = default_domain
host_of (some ip) = ip

pub variable_entry : Variable → Str
variable_entry v = v.name ++ codes "=" ++ v.value

scheme_of : Option Str → Str
scheme_of none = codes "http"
scheme_of (some s) = s

module _ (net : Network) where
  unfoldable pub health_check_address : ℕ → Str
  unfolding host_of
  health_check_address port = host_of net.ip ++ codes ":" ++ print_ℕ port

  unfoldable pub check_command : CommandInfo → CheckCommand
  unfolding variable_entry
  check_command info = record {
    args =
        if info.shell
        then codes "sh" ∷ codes "-c" ∷ info.value ∷ []
        else info.value ∷ info.arguments;
    env = net.environ ++ map variable_entry info.variables;
  }

  command_result : CommandEnd → ℕ → Option Str
  command_result exited timeout = none
  command_result timed_out timeout =
      some (codes "command health check timed out after " ++ net.format_duration timeout)
  command_result (errored e) timeout = some (codes "command health check errored: " ++ e)

  unfoldable pub command_health_check : HealthCheck → CommandInfo → Option Str
  unfolding command_result seconds_of
  command_health_check check info =
      let timeout = seconds_of net.default_timeout check.timeout in
      command_result (net.run (check_command info) timeout) timeout

  tcp_result : Option Str → Option Str
  tcp_result none = none
  tcp_result (some e) = some (codes "TCP health error: " ++ e)

  unfoldable pub tcp_health_check : HealthCheck → ℕ → Option Str
  unfolding tcp_result seconds_of
  tcp_health_check check port =
      tcp_result
        (net.dial (health_check_address port) (seconds_of net.default_timeout check.timeout))

  unfoldable pub check_url : HttpCheckInfo → Url
  unfolding scheme_of
  check_url info = record {
    scheme = scheme_of info.scheme;
    host = health_check_address info.port;
    path = info.path;
  }

  http_result : Response → Option Str
  http_result (answered code) =
      if ltb code 200 || leb 400 code
      then some (
          codes "health check error: received status code "
          ++ print_ℕ code
          ++ codes ", but expected codes between 200 and 399")
      else none
  http_result (no_answer e) = some (codes "health check error: " ++ e)

  unfoldable pub http_health_check : HealthCheck → HttpCheckInfo → Option Str
  unfolding http_result seconds_of
  http_health_check check info =
      http_result (net.get (check_url info) (seconds_of net.default_timeout check.timeout))

  -- The message for no kind leaves out the text of the type of the check.
  dispatch : HealthCheck → Option CommandInfo → Option HttpCheckInfo → Option ℕ → Option Str
  dispatch check (some info) http tcp = command_health_check check info
  dispatch check none (some info) tcp = http_health_check check info
  dispatch check none none (some port) = tcp_health_check check port
  dispatch check none none none = some (codes "unknown health check type: ")

  -- newHealthCheck, and a call of the function that it returns: none for a pass.
  unfoldable pub perform_check : HealthCheck → Option Str
  unfolding dispatch
  perform_check check = dispatch check check.command check.http check.tcp

  -- What makes each kind of check pass; a command goes before HTTP and HTTP before TCP.
  abbrev pub Passes :
      HealthCheck → ℕ → Option CommandInfo → Option HttpCheckInfo → Option ℕ → Type 0
  Passes check timeout (some info) http tcp = net.run (check_command info) timeout ≡ exited
  Passes check timeout none (some info) tcp =
      (code : ℕ) × (net.get (check_url info) timeout ≡ answered code) × (200 ≤ code) × (code < 400)
  Passes check timeout none none (some port) = net.dial (health_check_address port) timeout ≡ none
  Passes check timeout none none none = ⊥

  command_result-none :
      (end : CommandEnd) (timeout : ℕ) → (command_result end timeout ≡ none) ↔ (end ≡ exited)
  unfolding command_result
  command_result-none exited timeout = (λ h. refl, λ h. refl)
  command_result-none timed_out timeout = (λ h. cc, λ h. cc)
  command_result-none (errored e) timeout = (λ h. cc, λ h. cc)

  http_result-none :
      (r : Response)
      → (http_result r ≡ none) ↔ ((code : ℕ) × (r ≡ answered code) × (200 ≤ code) × (code < 400))
  unfolding http_result
  http_result-none (answered code) =
      (λ h. (code, refl, ground arith, ground arith), λ h. ground arith)
  http_result-none (no_answer e) = (λ h. cc, λ h. cc (h.1))

  tcp_result-none : (r : Option Str) → (tcp_result r ≡ none) ↔ (r ≡ none)
  unfolding tcp_result
  tcp_result-none none = (λ h. refl, λ h. refl)
  tcp_result-none (some e) = (λ h. cc, λ h. cc)

  dispatch-Passes :
      (check : HealthCheck) (timeout : ℕ) (command : Option CommandInfo)
      (http : Option HttpCheckInfo) (tcp : Option ℕ)
      → check.timeout ≡ some timeout
      → (dispatch check command http tcp ≡ none) ↔ Passes check timeout command http tcp
  unfolding dispatch command_health_check http_health_check tcp_health_check
  dispatch-Passes check timeout (some info) http tcp e = rw e (command_result-none _ timeout)
  dispatch-Passes check timeout none (some info) tcp e = rw e (http_result-none _)
  dispatch-Passes check timeout none none (some port) e = rw e (tcp_result-none _)
  dispatch-Passes check timeout none none none e = (λ h. cc, λ h. absurd h)

  -- A check with a timeout passes exactly if its command ends with a zero code in time, or, where it
  -- has no command, its request is answered with a code from 200 to 399, or, where it has neither,
  -- its port accepts a connection. A check of no kind never passes.
  pub perform_check-Passes :
      (check : HealthCheck) (timeout : ℕ)
      → check.timeout ≡ some timeout
      → (perform_check check ≡ none) ↔ Passes check timeout check.command check.http check.tcp
  unfolding perform_check
  perform_check-Passes check timeout e =
      dispatch-Passes check timeout check.command check.http check.tcp e
