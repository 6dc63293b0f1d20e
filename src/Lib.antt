-- ===== src/Lib.antt =====
-- Verification of the PVN applications (apps/), the network functions that run inside a user's
-- private virtual network.
--
-- The programs and their parts. `tls_validator` (apps/tls_validator/src) is a middlebox on the
-- path between a user and the servers: it reassembles both directions of each TCP connection,
-- reads the TLS handshake out of them, checks the server's certificates and resets connections
-- that fail. The RDR applications (apps/rdr_common, apps/rdr_client_cache, apps/rdr_parent_cache)
-- load a page's resources at a remote parent, which pushes them over one connection into the
-- client's cache; the client asks for single resources over the same connection. The video
-- transcoder (apps/video_transcoder/src) is a proxy that transcodes the segments of videos. The
-- BitTorrent application (apps/bittorrent_offload/src) downloads torrents for a user.
--
-- Which file models which part:
-- In Base and its children: names of the libraries, lists and numbers of machine width.
-- In Pnet: the TCP packets of the library that the source uses, as an interface: a record of
--   getters and setters, with the laws of its setters in a second record. Pnet/Sample is an
--   instance for tests.
-- In TcpBuffer: apps/tls_validator/src/tcp_buffer.rs. `TcpBuffer` is the struct, with one function
--   per method; `process_valid_data`, `add_segment`, `add_packet_data`, `drain`, `get_data` and
--   `len` are its methods. Shape holds the bounds, Loop the loop, Stream what the bytes are, History
--   whole histories, Progress what an in-order packet achieves, Drained what a drain leaves, Offset
--   the sequence arithmetic.
-- In Protocol: apps/tls_validator/src/protocol.rs. `read_handshake_frame`, `read_handshake_msg`,
--   `generate_return_rst`, `set_tcp_checksum`. Frame reads records, Reset the packets for resets.
-- In Flow and Validator: apps/tls_validator/src/lib.rs. `Status` and `FlowState` are a flow's
--   state, `process_outgoing_tcp` and `process_incoming_tcp` its transitions, and
--   `validate_flow` a packet's path through `TlsvMiddlebox`. Stage holds the abstract stages,
--   Sound and Safety the freedom from panics, Verdict the decisions, Isolation the flow table,
--   Final the last stages, Window the sequence window and Resets the resets.
-- In Tlsv: apps/tls_validator/src/bin/tlsv.rs. The packet loops `process_ipv4` and `process_ipv6`
--   are one function with the IP version as a parameter, over the sequence of reads.
-- In Http: the maps of headers of the HTTP library, as an interface with the laws of a map.
--   Http/Sample is an instance for tests.
-- In Wire: apps/rdr_common/src/lib.rs. The length-prefixed framing of messages, the conversion of
--   responses' headers and, in Json, of the browser's requests.
-- In EventHub: apps/rdr_common/src/event_hub.rs. The hub as an association list from keys to events,
--   over an interface for events. Event is a single event, with the steps of its callers, its task
--   and its timer; Listen what becomes of a listener; World the events as an instance of the
--   interface.
-- In ClientCache: apps/rdr_client_cache/src/client.rs and utils.rs. `start_get` and `finish_get` are
--   `get` before and after its wait, and `loop_step` is one round of `read_loop`, whose `fate` says
--   whether a panic has ended it. Caching is
--   apps/rdr_client_cache/src/cache.rs, with the calls that the cache makes as a parameter, and
--   Fallback is about what is handed back; Pull follows a request from its start to its answer.
-- In Parent: apps/rdr_parent_cache/src/resolver.rs and server.rs. `sniff_resources` is the loop over
--   the browser's events and `extract_resource` what is made of a response. Push holds the tasks
--   that write to the client, Serve the loop that reads its requests, Page the commands of a page
--   load. Sniff, Resource, Requests and Rounds, and Load with Chain and Plan are about these, and
--   Delivery puts the parent's tasks and the client's loop together.
-- In Torrent: apps/bittorrent_offload/src/routes.rs. One function per route, over the set of uploaded
--   files, the session and the file system. Zip holds the archive, Uploads and Calm what becomes of
--   an uploaded file.
-- In Mp4: apps/video_transcoder/src/mp4_utils.rs. `find_atom` searches an MP4 buffer,
--   `transcode_segment` repairs the time in the output of a helper process, and
--   `replace_stbl_atom`, in Stbl, rewrites the tracks of a file. Search, Cut and First hold what is
--   found, Fuel that the search ends, Inside and Time the repair, Replace the rewritten file.
-- In Dash: apps/video_transcoder/src/dash_transcoder.rs. `uri_prefixes` matches a request with
--   a base URI; Xml is the manifest and its targets, Segments and Sniff the responses, and Proxy is
--   `proxy` of apps/video_transcoder/src/main.rs. Prefix says when a URI matches, Absolute, Bases
--   and Manifest what base URIs the targets have, Stream where initialization segments come from,
--   Replace the rounds of the text's replacement.
--
-- How the model corresponds to the code. Mutable state is passed and returned. A function that
-- can panic returns an Option whose none is the panic; one that returns an error has a result
-- type with its own error; and one that can do both returns an Outcome. Bytes and machine
-- integers are native natural numbers, with `% 2 ^ w` where the source wraps. Maps are
-- association lists with `lookup`, `insert` and `remove`. The calls of third-party libraries
-- (packets, the TLS decoder, the certificate verifier, the encoders, the proxy's cache) are
-- parameters, with what the code relies on as named laws.
--
-- Bounds and fuel. `process_valid_data` runs on fuel, one round more than there are segments;
-- this is enough, since each round that goes on uses up a segment of its own. `find_atom` runs on
-- a round for each byte of the buffer, which is enough where no size in the file takes the offset past
-- 2^64, since each round then goes on by eight bytes at least; where one does, the source's loop may
-- have no end. `read_requests` runs on a round for each byte of the connection, which is enough, since
-- each request has four bytes at least; `str::replace` on a round for each character. The packets
-- that a loop handles are a list, so its loop is structural.
--
-- The events' channels are taken as their library describes them: a value that is sent reaches
-- those that have subscribed by then, and the first channel's receiver is a parameter. A write to
-- a file is accepted when it returns and carried out later, by a step of its own between the requests.
-- The client's clock is taken not to go back.
--
-- Not modelled: interface set-up, argument parsing, logging, the scheduling of tasks, the launch of
-- the parent's browser, tunnels, the start of the servers, the choice of the cache's
-- options, the Python controller and the Neutron extension. They are input and output, or glue over
-- services.
pub mod Base
pub mod Pnet
pub mod TcpBuffer
pub mod Protocol
pub mod Flow
pub mod Validator
pub mod Tlsv
pub mod Torrent
pub mod Wire
pub mod EventHub
pub mod ClientCache
pub mod Mp4
pub mod Dash
pub mod Http
pub mod Parent
