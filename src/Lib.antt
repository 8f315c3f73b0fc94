-- ===== src/Lib.antt =====
-- proxops: a GitOps agent that reconciles a Proxmox VE cluster with manifests in git.
--
-- A cycle parses the manifests of one cluster into an index of resources (internal/parse), reads
-- the live inventory from PVE, plans the difference (internal/plan), and executes the plan over
-- PVE's API (internal/exec, internal/pveclient), with a record of each object in a status store
-- (internal/statusx). Shared by all: the resource contract and the kinds (internal/schema).
--
-- Files and code:
--   Base/       text as lists of bytes with Go's `strings` functions, association lists, integers,
--               results, and the insertion sort that the source's sorted slices are modelled by
--   Schema/     internal/schema: Value (PVE configuration values and the readings of them in
--               internal/plan/plan.go), Kind (kinds and identities), Resource (the interface
--               schema.Resource as a record of what its methods return), CloneConfig (the
--               configuration of a cloned VM, internal/schema/vm.go; the proofs are in Cloned),
--               Depends (the depends-on annotation, internal/schema/types.go), Artifact (iso.go,
--               ctt.go, diskimage.go and artifact_ext.go; the proofs are in Volumes), Drive
--               (parseDiskInfo and diskSlotDrift of vm.go; the proofs are in Preserved), References
--               (internal/schema/resolve_refs.go; the proofs are in Named, Unresolved and Resolved),
--               Quantity (internal/schema/quantity.go; the proofs are in Amounts), Human
--               (HumanFromBytes of internal/schema/adopt.go)
--   Plan/       internal/plan/plan.go: Types (data), Live (keys, kinds, power, nodes), Desired (pass
--               A of PlanActions), Prune (pass B), Guard (the empty-desired guard and the budget),
--               Order (the comparison of the sort), Actions (PlanActions), Load (LoadLive); the
--               proofs are in Emission, Candidates, Safety, Limits, Ordering, Targets, Upkeep,
--               Cloning, Reading and Downloads
--   Status/     internal/statusx: Store (the store and its operations); the proofs are in Listing
--   Exec/       internal/exec: Session (the calls of internal/pveclient's handles, the answers, the
--               trace of both), Operations (create, cloneCreate, updateConfig, stopAndWait and the
--               others), Apply (update, apply), Run (execute, Run, recordDeferred); the proofs are
--               in Deferral, Chain, Records, Care with Careful, Creation and Carefulness, and Whole
--   Pve/        internal/pveclient: Breaker (breaker.go), Client (Client.Do of client.go), Task
--               (task.go); the proofs are in Gate, Outage and Task
--   Parse/      internal/parse/parse.go: Index (the loop of BuildIndex and BuildIndexFromFiles; the
--               proofs are in Unique), Cycle (indexOfCycle; the proofs are in its children), Deps
--               (EdgesFor, checkDeps; the proofs are in Checked), Levels (Levels; the proofs are in
--               its children)
--   Reconcile/  internal/reconcile: Nodes (checkNodeAllowlist), Cycle (RunOneCycle, which composes
--               the parser, LoadLive, PlanActions and the executor); the proofs are in Way, Safety,
--               Expected, Reports and Finish
--
-- PVE is a parameter: a World answers each call, and each wait for a task, by a function of all
-- that was said before, so that a theorem about an action holds over every history of answers. The
-- loop of Client.Do and that of Wait run over a list of replies that ends where the context is
-- done; Client.Do makes its first attempt in any case and at most maxRetries + 1, and each loop is
-- structural in its list.
--
-- Conventions. A Go string is the list of its bytes; case mapping and white space are ASCII's. A Go
-- map is an association list. Ids, levels, tiers and budgets are natural numbers: the code only
-- asks of them whether they are positive, equal or less, and gives a negative one the treatment of
-- zero. The reasons of the planner and the errors of the planner, the index, the quantities and the
-- client are kept as data, their format and values; the errors of the executor are the texts that it
-- formats. Logging, metrics and time stamps are left out. A sort is an insertion sort, which is what
-- Go's sort package does on short slices; where the comparison is an order the result is the same for every stable sort.
-- Recursion is structural but for three places with fuel: the digits of a number, which has at most
-- as many digits as its value; the search for a cycle, whose fuel is the number of the nodes, of
-- which each visit takes a white one; and Levels, whose fuel is an argument.
--
-- A cycle's outside is a record of inputs: the result of the fetch, the decoded and validated
-- manifests after ResolveArtifactRefs and the resolution of secrets, with whether these failed,
-- PVE's answers to the reads of LoadLive, and the World of the executor.
--
-- Not modelled: the field by field translation of VMs, containers and their templates to PVE
-- parameters and its reading of the live fields (internal/schema/vm.go but for clones and disks, lxc.go,
-- pci.go, pvefmt.go, nameserver.go, adopt.go but for HumanFromBytes), and with it their references
-- to secrets; what talks to the outside without logic of its own (the HTTP server, metrics, logging,
-- git, the file system), the SOPS secrets, the configuration loader, the adoption of existing
-- objects, and the test double of PVE.
pub mod Base
pub mod Schema
pub mod Plan
pub mod Status
pub mod Exec
pub mod Pve
pub mod Reconcile
pub mod Parse
