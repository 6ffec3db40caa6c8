-- ===== src/Lib.antt =====
-- lab_monitor watches the machines of a lab. A client on each machine collects facts about it
-- (libs/platform), evaluates them against the rules of a template bundle (libs/core) and
-- publishes announces, resource samples and compliance reports (libs/transport). The server keeps
-- what it has heard of each client, joins it with the hosts that an operator expects into one
-- view of the fleet, publishes bundles and dispatches scripts to hosts (apps/server). This
-- library models the parts of that which compute answers, and leaves out those that talk to the
-- operating system, to the bus and to the screen.
--
-- Files and code:
--   Base: names and lemmas that the modules share. Text is a list of byte values; OrderedMap
--     is std::map, a list in key order; Base/Json holds the JSON library and the type double,
--     which the code takes from elsewhere, as one record of operations, a parameter of whatever
--     uses it.
--   Version: libs/core/src/version.cpp.
--   Types: libs/core/src/types.cpp and types.hpp, with the capability bits.
--   Rule: libs/core/src/rule.cpp and rule.hpp.
--   Bundle: libs/core/src/template_bundle.cpp: rules_for, make_rule_id and
--     deduplicate_rule_ids.
--   Registry: libs/core/src/client_registry.cpp; a sequence of its calls is a list of `Heard`.
--   Fleet: libs/core/src/fleet.cpp: reconcile.
--   JsonPath and JsonPath/Resolve: libs/core/src/json_path.cpp, the parser and the walk.
--   Facts: libs/core/include/lm/core/host_facts.hpp.
--   Compliance, Compliance/Dds and Compliance/Evaluate: libs/core/src/compliance.cpp.
--   Script: libs/core/src/script.cpp.
--   Dispatch: apps/server/script_run.cpp.
--   BundleJson: libs/core/src/json.cpp. A dump may throw at a text that is not UTF-8: content_hash
--     has the exception as a value, and the slots of the controller that take a hash end with it.
--   RuleDetail: libs/ui/src/rule_detail.cpp, with the operations of QString as a parameter.
--   Worker: apps/client/monitor_worker.cpp. The slots and timers are the constructors of
--     `Happening`; `step` gives what each of them sends or emits, and `run` goes through a course of
--     them. The thread of a script and the call that it posts back are part of the state.
--   Controller and Controller/Runs: apps/server/server_controller.cpp, on Registry, Fleet, Bundle,
--     BundleJson and Dispatch. The answers of the file system and the ids that are drawn are
--     arguments; calls of the fleet model, messages, files and timers are outputs.
--   RunStore: apps/server/run_store.cpp: the JSON of a run.
--   Codec and Codec/Cdr: libs/transport/src/codec.cpp, with the CDR library as a parameter. A CDR
--     string ends with a NUL, so the library is taken to carry texts of bytes other than NUL only, and
--     what it writes for others is left open.
--   Cart: tools/shopping_cart/cart_state.cpp, the cart that rules on DDS topics are tried on.
--   Bus: the class MessageBus of libs/transport/src/in_memory_transport.cpp, with the
--     messages; its methods are the constructors of `Operation`, and `step` gives the calls that
--     each makes.
--
-- How the parts meet: the controller's publication is the text that serialise_bundle writes, which
-- is the text that the worker's on_bundle reads; the commands that it sends are those that the
-- worker's on_script_command takes, and the results that this answers with are those that
-- on_script_result books with the functions of Dispatch.
--
-- How the code is read: an exception-free function that returns std::optional or std::expected is
-- one into Option or Expected, and so is one whose exceptions its caller catches; a loop is a
-- recursion over what it goes through, and a vector or a set that a loop fills is an argument that
-- it passes on; a set of strings is a list. The time points of leases count ticks from the epoch
-- and are not before it; the time of a run is an integer.
--
-- Bounds: the parts of a version are kept within an int, as std::from_chars does; an index in a
-- path is a std::size_t and wraps; the hash of a bundle wraps at 64 bits; the revision that a
-- publication counts up does so as well. Elsewhere a number is not bounded by its type, and that it
-- fits is a condition where it must be read back. Fuel: the search for a free suffix has one round
-- more than there are taken ids, the parser of paths one round for each character, and the search
-- for a new run id one round for each run and one more; each is enough, the last where the ids that
-- are drawn differ.
--
-- Not modelled: arithmetic on double, save for the comparisons that the library's parameter
-- offers (DiskUsage::used_percent, ComplianceSummary::passed_ratio); the probes, the DDS
-- transport, the fleet model and the windows, which are calls of the operating system and of other
-- libraries; the files of the run store and of the script library; load_config, the script settings
-- and the log of transitions of the controller; the keys of messages in the codec; and callbacks
-- that use the in-memory bus while it calls them.
pub mod Base
pub mod Version
pub mod Types
pub mod Rule
pub mod Bundle
pub mod BundleJson
pub mod RuleDetail
pub mod Registry
pub mod Fleet
pub mod JsonPath
pub mod Facts
pub mod Compliance
pub mod Script
pub mod Dispatch
pub mod RunStore
pub mod Bus
pub mod Codec
pub mod Worker
pub mod Controller
pub mod Cart
