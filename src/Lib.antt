-- ===== src/Lib.antt =====
-- The Python plugin of hermes-vector-platform: a platform adapter that connects a Hermes gateway with
-- Vector, an encrypted messenger on Nostr, by way of a sidecar process with an HTTP interface.
--
-- The program's parts and how they interact. The sidecar sends events. internal/inbound.py handles
-- them, asks the gates of internal/groups.py who is let in, and hands an accepted message to the
-- gateway as an agent turn. The gateway calls adapter.py to send, edit, delete and react, and
-- adapter.py calls the sidecar. The gates read the environment by internal/env.py, and all ids go
-- through the codec of internal/bech32.py.
--
-- The files.
--   Prelude: texts as lists of code points, Python's `strip`, `split`, `lower`, `int` and `str`,
--     dictionaries as association lists in insertion order, sets as lists without repetition, and the
--     JSON values that the sidecar sends.
--   Bech32: internal/bech32.py. Checksum, Convert and Hex hold the loops of `_bech32_polymod`,
--     `_convertbits` and the hexadecimal digits. Xor, Digits, Linear and Residue are about the
--     checksum, Regroup about the bits, Letters, RoundTrip and Canonical about the texts.
--   Recent: the bounded ordered dictionaries of adapter.py and internal/inbound.py, as lists with the
--     oldest entry first. INBOUND_DEDUP_MAX, SENT_IDS_MAX and LAST_INBOUND_CHATS_MAX are those of
--     internal/constants.py.
--   Env: internal/env.py. The environment of the process and the secret lookup of the gateway are the
--     fields of `Environ`.
--   Groups: internal/groups.py, with the slash commands in Commands and the mention gate in Mentions.
--     Context holds the background block of a channel turn, and Context.History the rows that it is
--     made of. Access is about the gates, Merge about the allowlist that the setup writes.
--   Adapter: adapter.py. `Adapter` is the state of VectorAdapter that the modelled methods change;
--     Act is the monad of its methods. Outbound holds `send`, `edit_message`, `delete_message` and the
--     reactions, Labels the names of peers and rooms and the last message of a chat, Blocklist and
--     Mute the mute list and its commands, Rooms and Sync the joined channels, Invites the parked
--     invites and their commands.
--   Inbound: internal/inbound.py. Direct is a DM, Channel a message of a community, Updates the
--     reactions, the deletions and `_dispatch_sse_event`. NoTurn, Gates, OneTurn, OneEvent and
--     Redelivery are about the agent turns that the handlers start. Stream is `_sse_listener`: the
--     chunks of the event stream, its lines, the resume point and the reconnections.
--   Settings: internal/yaml_config.py. Apply is `_apply_yaml_config`, section by section; Display is the
--     merge of the wizard's settings into config.yaml. Keeps, Environ and Strangers are about the
--     environment that results, Merge and Wizard about the merged file.
--   Sidecar: the process. Child is the environment it starts with, of internal/sidecar.py and
--     internal/setup.py; Session is `SidecarSession` with the probes of internal/bridge_bin.py; Connect
--     is `connect` and `disconnect` of adapter.py; Prebuilt is the download of the binary; Standalone is
--     `_standalone_send`, a message from another process, which reads the runtime record of the gateway.
--   Setup: the identity files that internal/setup.py moves aside and puts back.
--   Paths: the file names of internal/paths.py.
--
-- State and effects. A method is a function from the state to a result and a new state. What it does
-- to the outside is the trace of the state, the latest effect first: calls of the sidecar, agent turns,
-- breadcrumbs, file operations. The n-th call that returns something is answered by the n-th entry of
-- the `World`, which is arbitrary, so a theorem about all worlds holds for every behaviour of the
-- sidecar and of the disk. Concurrent handlers are not modelled: each one runs to its end.
--
-- Conventions. `lower` is Python's for ASCII letters and for the two other letters that it takes to
-- ASCII; other letters stay. `int` reads ASCII digits. The letter table of regular expressions under
-- IGNORECASE and the class `\w` are parameters of the world. The text of a list or an object under
-- `str` is carried by the value. Fields of an event that hold ids are texts. The loop that drains
-- whole groups of bits runs on the number of bits as fuel, one step for each group, which is enough
-- since a step takes at least one bit.
--
-- The machine. What `connect` meets (the lock, files, the port, the process, the answers of /health) is a
-- field of `Host`, each one arbitrary. Its wait for /health is a list of rounds that ends with the
-- deadline, the wait for the port a list of tries of which ten count. The listener runs on the list of
-- its attempts. The YAML libraries, the network, the hash and the disk of the download are fields of
-- `Yaml` and `Release`.
--
-- Not modelled: attachments and pointers on disk, the texts of breadcrumbs and errors, the
-- bookkeeping of fatal errors in `send`, media uploads, the welcome and the home community, the prompts
-- of the wizard, clocks and jitter, which are I/O; the registration with the gateway, which waits for a
-- later extension; the sidecar itself under bridge/, which is written in Rust.
pub mod Prelude
pub mod Bech32
pub mod Recent
pub mod Env
pub mod Groups
pub mod Adapter
pub mod Inbound
pub mod Settings
pub mod Sidecar
pub mod Setup
pub mod Paths
