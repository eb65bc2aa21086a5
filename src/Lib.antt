-- ===== src/Lib.antt =====
-- rlvm, a CSI plugin that gives out volumes of an LVM volume group, as a library of
-- definitions translated from its Rust source, with theorems about them.
--
-- The program is four processes. volumed (crates/volumed) is the only one that
-- creates, formats and deletes logical volumes of the one group it manages. mountd
-- (crates/mountd) runs on a node and mounts and unmounts, within what its configuration
-- allows. The plugin's controller and node (crates/csi, src/bin) speak the Container Storage
-- Interface: the controller calls volumed, the node calls mountd. They talk by the
-- messages of protos/.
--
-- Which file models what:
-- - Base: text, lists, machine words, and the standard library's printing and parsing of numbers.
-- - Interleaving: requests that are served at the same time, in general.
-- - Rpc: statuses, and what a handler is. A handler is a function of the state of the host to an
--   outcome (a reply, a status, or a panic) and the state after it; `Program` is the same for
--   code with another error. `?`, `map_err`, `unwrap` and `ok_or` are its combinators. A client
--   sees a handler through `answer`.
-- - Lvm: the library lvm2_cmd as a parameter `Lvm S`, what the programs rely on of it
--   (Lvm/Laws), and an instance in memory, for runs (Lvm/Memory).
-- - Host: the operating system, the sets of mount flags, and the start of a process, as
--   parameters; Host/Paths is the equality of paths that the standard library documents.
-- - Volumed: messages and service (Spec); crates/volumed/src/server.rs and the configuration of
--   lib.rs (Server); the interceptor and `main` of main.rs (Main).
-- - Mountd: messages and service (Spec); crates/mountd/src/lib.rs (Config), server.rs (Server),
--   main.rs (Main). Mountd/Table is the abstract view of the mounts of a host, how many of them
--   are on each path; Mountd/Table/Steps says how the two calls may change it.
-- - Csi: messages of protos/csi.proto (Spec); crates/csi/src/controller.rs (Controller), node.rs
--   (Node), identity.rs (Identity); what their clients see (Services); the two programs of
--   src/bin (Main).
-- - System: the controller on top of volumed on top of a lawful lvm2_cmd, and the node on top of
--   mountd. System/Managed is what a running volumed stands on, System/MountHost what the node's
--   calls of mountd do. System/Store is the abstract view
--   of a volume group, a map from names to volumes, and what lvm2_cmd's calls for one name leave
--   of the others; System/Creating and System/Deleting take `create_volume` and `delete_volume` to
--   steps of that map, System/Listing `list_volumes` to its volumes. System/Calls is about
--   sequences of controller calls, System/Concurrent about requests to create volumes that are
--   served at the same time, System/Mixed about requests to create and to delete.
--   System/NodeCalls is about sequences of node calls and the table of mounts, System/Provisioning
--   goes from the controller to the node, and System/Panics is about all handlers.
-- - Tests: concrete parameters, runs, and each theorem at concrete arguments.
--
-- A definition has the name of its function or type in the source, in snake_case or
-- UpperCamelCase; an RPC method `get_lv_list(&self, request)` is `get_lv_list` of the parameters,
-- the fields of `self` that it reads, and the request. A `Request` carries the value that the
-- interceptor put in its extensions, which the handler unwraps. Calls of another process are
-- fields of `VolumeService` and `MountService`, on the same state. One call runs from its begin to
-- its end, but for three handlers, which are cut where others may come in between: `create_volume`
-- and `delete_volume` at their awaits (Csi/Controller/CreateVolume/Phases and
-- DeleteVolume/Phases), `mount` between its looking at the mount table and its mounting
-- (Mountd/Server/Phases). Interleaving is the general part: requests cut into parts, which run in
-- any order. Each call of volumed is one step there; other handlers are not interleaved.
--
-- Bounds and fuel: `usize` and `u64` are numbers below 2 ^ 64, `i32` and `i64` are integers; casts
-- between them, the checked subtraction and the sum of `list_volumes` have their wrap-around or
-- failure written out, with or without overflow checks. Printing a number has 64 rounds, which is
-- enough for a word in any base from 2 on. A request to create a volume makes four calls at most,
-- and one to delete two, so four runs of each are enough. All other recursion is structural.
--
-- Not modelled: logging, the parsing of command lines, the encoding of messages and the transport,
-- the hash function (a parameter, of which only is assumed that a hash is a word), sockets and
-- signals (parameters), the build scripts, and the fields of messages that belong to calls that
-- are not implemented. A panic ends one call with a status that is a parameter. Timing and the
-- failure of a process in the middle of a call are left out.
pub mod Base
pub mod Interleaving
pub mod Rpc
pub mod Lvm
pub mod Volumed
pub mod Host
pub mod Mountd
pub mod Csi
pub mod System
pub mod Tests
