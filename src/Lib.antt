-- ===== src/Lib.antt =====
-- The Mesos executor of this repository: a program that a Mesos agent starts to run one task. It
-- launches the task's command, checks its health, calls hooks around it, and reports the state of
-- the task to the agent until the task is gone.
--
-- How the parts interact: messages of the agent, results of health checks, the end of the command
-- and the expiry of its certificate arrive as events on one channel; one loop handles them in turn.
-- It launches the command and stops it, asks the hook manager to call the hooks, and hands status
-- reports to the state updater, whose goroutine sends them to the agent and which forgets them when
-- the agent acknowledges them.
--
-- Which file models which part:
-- - Mesos: the messages of the Mesos API, as the getters that the code calls return them; the
--   library itself is not part of the repository.
-- - MesosUtils: mesosutils/taskinfo.go, the lookups in the metadata of a task (FindLabel, GetWeight,
--   GetFirstPortWithLabel and the others).
-- - Hook: hook/hook.go and hook/manager.go (Manager.HandleEvent); Hook.Command is hook/exec/hook.go.
-- - Kill: os/kill.go (KillTree, KillTreeWithExcludes).
-- - Command: command.go (NewCommand, Start, Wait, Stop, envWithoutExecutorConfig).
-- - Executor: executor.go. Executor.Cert is cert.go and checkCert, Executor.Launch is launchTask,
--   Executor.Loop is taskEventLoop and shutDown, Executor.Sanitize is sanitizeConfig and
--   Executor.Agent is eventLoop with handleMesosEvent; Executor.Start is Start as a step relation,
--   beside which the updater takes its own steps, and Executor.Channel the channel of events between
--   its senders and the loop. The state of the loop is its local variables, the framework's
--   capabilities and a log of all effects, newest first; Executor.Effects, Reports, Keeps, Hooks,
--   Ending and Environment hold what is proved of it.
-- - Health: health_checker.go, the loop of handleHealthResults; Health.Check holds the checks and
--   Health.Schedule DoHealthChecks, with the event loop in Executor.Unhealthy. Executor.Scraping is
--   the path of a log line, from createOptionsForLogstashServiceLogScrapping and ScrapCmdOutput on;
--   Executor.Scraping.Maps is its view of an entry as a map, a quotient of the lists of keys and
--   values.
-- - Updater: state/state.go, as a step relation in which the callers of Update, Acknowledge and Wait
--   and the goroutine of loop interleave.
-- - Consul: hook/consul/hook.go; Consul.Names is its use of package strings, Consul.Services the
--   services of a task, Consul itself the calls of the agent (RegisterIntoConsul and
--   DeregisterFromConsul).
-- - Vaas: hook/vaas/hook.go; Vaas.Client is the REST client of hook/vaas/client.go.
-- - Wiring: createHooks of cmd/executor/main.go, the hook manager with the hooks of both registries.
-- - Main: the rest of cmd/executor/main.go (init, initSentry, main), with NewExecutor and StartExecutor
--   of executor.go, and Main.Surroundings its configurations; Clock is clock.go; Metrics is
--   metrics/graphite.go.
-- - Servicelog: servicelog/entry.go; Scraper, Logfmt and Logstash are servicelog/scraper (json.go,
--   filter.go and logfmt.go) and servicelog/appender/logstash.go, with Logstash.Setup for
--   LogstashAppenderFromEnv, NewLogstash and NewConsulLogstashWriter. The scraper's channel is the number
--   of entries that it holds and the list of all that were sent to it.
-- - Xio: xio/decorator.go. Xnet: the interface Sender of xnet, Xnet.Writer and Xnet.Provider
--   xnet/writer.go, Xnet.Tcp xnet/tcp.go with xnet/error.go, Xnet.Udp xnet/udp.go. The writer is
--   generic in the sender and its state.
-- - Runenv: runenv/runenv.go and runenv/hostname_unix.go; Runenv.Hosts says what is a mark of an
--   environment in a host name.
-- - Common: Booleans, lists, text, numbers, results and dictionaries; Samples: data for the tests.
--
-- Choices of the model: text is a list of bytes. Errors are their messages, and a nil dereference is
-- a result of its own (panic). What the system answers is a parameter: the process table, pgrep,
-- the clock, the hooks, os/exec, the network, x509, the HTTP and Consul clients; an answer of the
-- executor's surroundings may depend on all that happened before. Times are numbers of nanoseconds.
-- The counter of failures is a uint32 and wraps around; other numbers do not come near their bounds.
-- All functions recurse on their data (the events, the results, the processes); only the digits of a
-- number are printed on fuel, one more than the number, which is proved to be enough (atoi-print).
--
-- Not modelled: the timers of DoHealthChecks and of the backoff, which only decide when checks and
-- subscriptions are made; the pipe between a task's output and the scrapers; what
-- envconfig makes of the environment; metrics/system.go, which computes with floating-point numbers,
-- and the other set-up of the metrics; hook/eventtype_string.go, which is generated; and xnet/xnettest,
-- a helper for tests.
mod Common
pub mod Mesos
pub mod MesosUtils
pub mod Hook
pub mod Kill
pub mod Command
pub mod Executor
pub mod Health
pub mod Updater
pub mod Runenv
pub mod Vaas
pub mod Xnet
pub mod Xio
pub mod Servicelog
pub mod Clock
pub mod Consul
pub mod Samples
pub mod Wiring
pub mod Main
pub mod Metrics
