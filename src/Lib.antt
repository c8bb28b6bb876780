-- ===== src/Lib.antt =====
-- Verification of fusion-code-modelization, a Python package that drives code migration with language
-- models.
--
-- What is modelled. Every file names the code that it is about. A Python object is a record; a method is
-- a function from the object to the object afterwards, beside what it returns; a file on disk is a field
-- of the object that writes it. Ids (uuid4), clock values, random numbers and the answers of the language
-- model are arguments, so a theorem holds for all of them. Log output is left out. Dictionaries with text
-- keys are association lists in insertion order (Common/Dict.antt), and Python's comprehensions are the
-- functions of Common/Lists.antt.
--
-- Session (fusion_code_modelization/session): State.antt is state.py, the states of a session and the
-- transition table; Store.antt is store.py, a file for each session id; Engine.antt and Chat.antt are
-- engine.py. The engine holds the files and the cache of model clients. `chat` is cut at its `await`, so
-- that other calls can be put between its two halves.
--
-- Workflow (fusion_code_modelization/workflow): Plan.antt is decomposer.py, Executor.antt is executor.py.
-- The loop of `execute` takes fuel, one round more than there are tasks, and the loop's theorem shows that
-- this is enough. The tasks of one round run at the same time; they see the results of earlier rounds only,
-- since results are stored when all of a round have ended.
--
-- Sandbox (fusion_code_modelization/sandbox): Paths.antt has the Python text operations, Policy.antt is
-- policy.py, Guard.antt is guard.py with the log of audit.py. How a path is resolved depends on the file
-- system and is a parameter.
--
-- AgentComm (fusion_code_modelization/agent_comm): Channel.antt is channel.py with its two log files,
-- Coordinator.antt is coordinator.py, which drives the channels.
--
-- Plugin (fusion_code_modelization/plugin): Registry.antt is registry.py with the models, Manager.antt is
-- manager.py. A manifest is one shared object: the registry's entry is its only copy.
--
-- LoadBalancer (fusion_code_modelization/loadbalancer): Metrics.antt is models.py, Strategy.antt is
-- strategy.py, Balancer.antt is balancer.py. Floats are a parameter, a record of operations; what is
-- assumed of them, where anything is, is that `<` is irreflexive and transitive, which holds of every
-- float.
--
-- Agent (fusion_code_modelization/core): Hooks.antt is hooks.py, Loop.antt is agent_loop.py. A registry
-- has the handlers of each event in order; `emit` hands the payload from one to the next, and stops at a
-- denial or an exception. The regular expressions, the substitution of secrets and the fusion-guard
-- client are parameters. `run` asks the model in each round, lets the hooks see the answer, checks the
-- text with the tool, and tries again with the error; it recurses on `max_iter`, the number of rounds.
-- The model and the tools are parameters that may answer anything, an exception of a tool included.
--
-- Agent/Writer.antt is safe_writer.py: a path is resolved, refused where it leaves the project, offered
-- to the pre_write handlers, and only then written, with the content as they changed it. `resolve` is
-- the resolution of a path, symbolic links included.
--
-- Snapshot (fusion_code_modelization/snapshot): Files.antt, Manager.antt, Restore.antt and Cleanup.antt are
-- manager.py, Delta.antt is delta.py. A snapshot holds the readable texts of the project, and what has
-- changed since the last one. Restoring deletes the texts that it does not have and writes those it has;
-- where that fails, a rollback snapshot made just before is restored in the same way. Paths are resolved
-- by Agent.Writer, the paths at which a write or a deletion raises are a parameter that stays the same in a
-- run, directories are not modelled, and the loops run over the listed files. That the rollback snapshot
-- cannot be saved, and the restore goes on without it, is a parameter too.
--
-- Trace (fusion_code_modelization/trace): Store.antt is store.py with models.py: the graph in memory and
-- its two files, each line of which is a node or an edge. When a file is full is a parameter.
--
-- Trace (continued): Tracker.antt is the traces of tracker.py, once for both directions, with the queue of
-- ids and depths; each round takes one entry, and since only a stored node that was not visited is queued,
-- the number of stored nodes and one more is fuel enough. Report.antt has create_node, link_nodes and
-- generate_report.
--
-- Cluster (fusion_code_modelization/cluster): Models.antt is models.py with what node_client.py makes of an
-- answer; Scheduler.antt and Scheduler/Auto.antt are scheduler.py, and Auto calls the balancer of
-- LoadBalancer. A dispatch is cut at its await, and so is a check of the nodes; a run is a sequence
-- of calls in which other calls may come between the parts. The files hold the dictionaries of to_dict.
--
-- Offline (fusion_code_modelization/offline): Cache.antt is cache.py. A size is a number of bytes, which as
-- megabytes a float holds exactly, and a time a number of units of the clock.
--
-- Not modelled: the command line, the HTTP server, the clients of the model gateway and of remote nodes
-- (input and output), and the components that PROJECT.json lists as such.
pub mod Common
pub mod Session
pub mod Workflow
pub mod Sandbox
pub mod AgentComm
pub mod Plugin
pub mod LoadBalancer
pub mod Agent
pub mod Snapshot
pub mod Trace
pub mod Cluster
pub mod Offline
