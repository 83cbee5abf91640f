-- ===== src/Lib.antt =====
-- `dnslab`, the DNS lab library of the notebook container: a model and its verification.
--
-- The program and its model, part by part:
--   dnslab/model.py                 Model: manifests' capabilities and profiles, instances, targets
--   dnslab/registry.py              Registry: load_manifest, discover and get
--   dnslab/providers/base.py,       Provider: the abstract class as a record of actions, the cache of
--     dnslab/providers/__init__.py    get_provider, and the inherited nuke
--   dnslab/providers/external.py    Provider/External: the class and its methods
--   dnslab/__init__.py              Facade: start, status, target, targets, logs, stop and nuke
--   dnslab/checks.py                Checks: the checks of a target; Checks/Matrix: run_checks,
--                                     run_matrix, explain; Checks/Report: query_report and its matrix;
--                                     Checks/Windows: windows_dot_client_report;
--                                     Net: what the network libraries are given and return
--   dnslab/state.py                 State: to_host_path; State/Files: the directories and state files
--   dnslab/providers/ec2.py         Ec2: the helpers that call no AWS; Ec2/Cloud: the services; Ec2/Access:
--                                     sessions, images, groups; Ec2/Waits: the waiting loops; Ec2/Memory:
--                                     the state file; Ec2/Discovery, Ec2/Teardown and Ec2/Start: discover,
--                                     target and logs, stop and nuke, start; Ec2/Contract: the class
--   dnslab/providers/docker.py      Docker: the daemon and what only looks; Docker/Render: rendering and
--                                     the fingerprint; Docker/Start: start, and the class
--   dnslab/certs.py                 Certs: the CA and the certificates
--   dnslab/selfcheck.py             Selfcheck: dummy_context, lint_rendered and main
-- The notebook calls the facade. It reads manifests through the registry, gets a provider by the
-- lazy lookup, and has the provider start, find and stop instances. The targets that a provider
-- returns are what the checks query. Functions keep their names: `load_manifest` is
-- `Registry.load_manifest`, `_query` is `Checks.query`, `Profile.from_dict` is
-- `Model.profile_from_dict`.
--
-- Shared modules: Prelude (library names, lists, texts), Dict (a dict with text keys, in insertion
-- order), Result (exceptions as values), Action (code that changes the world and may raise: what
-- was done before a raise stays done), Value (what YAML and JSON documents hold, with Python's
-- conversions), Text (strip, slices, padding). A module below a component, such as Registry/Loaded
-- or Facade/Plan, holds its proofs. Tests holds runs and the theorems at concrete inputs.
--
-- Parameters stand for code that is not part of the library: `Disk` for the file system below the
-- servers' directory with `yaml.safe_load`, `Net` for dnspython, `ssl` and `kdig`, `Makers` for
-- constructing providers, `Files` for the file system and `json`, `Cloud` for the AWS services with the
-- clock and the template engine, `Daemon` for the docker daemon, `Crypto` for the cryptography library,
-- `Tools` for what the self-check runs, how a path resolves, and the printing and parsing of times. A world `W`
-- is what all of these act on.
--
-- Simplifications: an exception is its class with the names that it carries, not its prose.
-- A mapping has text keys and no floats or dates. A latency is in whole microseconds and not
-- rounded, and a time is a number of microseconds. A required flag is no double-underscore name,
-- and an argument of `get` no path with slashes. The disk does not change during one discovery.
-- A loop over a list or a path that is there before it starts needs no fuel. The loops that wait on the
-- clock have fuel for one round more than their timeout allows when each round takes its pause; a loop
-- that runs out of it raises `out_of_fuel`, which is no exception of the program. A timeout and a
-- manifest's `start_timeout` are whole numbers of seconds.
--
-- Not modelled: the table object that run_matrix makes of its rows; the templates, notebooks and
-- container files, which are data.
pub mod Prelude
pub mod Dict
pub mod Result
pub mod Action
pub mod Value
pub mod Model
pub mod Registry
pub mod Provider
pub mod Facade
pub mod Text
pub mod Net
pub mod Checks
pub mod State
pub mod Ec2
pub mod Certs
pub mod Docker
pub mod Selfcheck
mod Tests
