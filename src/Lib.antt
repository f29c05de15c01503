-- ===== src/Lib.antt =====
-- geomqtt: a bridge from geo sets in Redis to MQTT topics of map tiles. Commands reach Redis through
-- a proxy, which publishes what they change; clients subscribe to tiles and to objects.
--
-- The parts, by the files of crates/geomqtt-server/src, and the modules that model them:
--   payload.rs   Topic (names of topics and channels), Payload (the events and their fields)
--   redis.rs     Topic.Node (node ids and envelopes), Topic.Names (the mapping of channels), Bridge
--                (run_pubsub_bridge)
--   mqtt.rs      Topic.Names (parse_tile_filter, parse_object_filter), Mqtt (handle_packet, the
--                snapshots of a subscription, hmget_enrich, hgetall and geosearch_box, and the loops
--                of handle_tcp and handle_ws), Stream (the buffer and the loop over it)
--   config.rs    Config (from_env: tile sizes, zoom lists, effective zooms, the sink's settings)
--   coord.rs     Coord (tile_for_coord, bbox_for_tile, tiles_for_point, tiles_covering_bbox)
--   influx.rs    Influx (the lines of the sink, its queue, and writer_task)
--   broker.rs    Broker (sessions and filters, publish_local, send_direct)
--   fanout.rs    Fanout (on_geo_write, on_geo_remove, on_attr_tile, publish_object)
--   resp.rs      Resp (handle_command and what it calls, the conversion and encoding of answers, the
--                loop of handle_client), Stream
--   metrics.rs   Metrics (the counters, read_proc_self_status and render)
--   http.rs      Http (the handlers with what they ask of Redis, and count_request)
--   main.rs      Node (main with connect and the serve functions of mqtt.rs, resp.rs and http.rs in
--                Main and Serve, and the tasks as steps on the state that they share in Step)
--   their unit tests that do not compute with floats: Tests.Units and Tests.Routes
--
-- How they interact: Resp.Handle fetches the old positions, forwards the command to the upstream and
-- calls Fanout with what changed; Fanout computes tiles with Coord, writes payloads, hands them to
-- Broker and to the upstream, and tells Influx. World holds the state that they share, and an
-- operation is an action on it, which gives a value and the next state or panics. A Rust function
-- has the definition of its name; its loops and branches that are named in the model are mapped to
-- the lines that they stand on. A connection is a run over the events that its `select!` takes up:
-- what is read, what is taken from the channel of its session, and what other tasks do to the World
-- in between, which is any function on it.
--
-- A text is the list of its UTF-8 bytes, and `parse` and `to_string` of whole numbers are functions
-- on it (Base). Counters and ids wrap around at 2 ^ 64. A list, a text or a map is walked by
-- recursion on it, so two loops of the server need fuel: encode_resp2, where a round for each 64
-- bytes of the frame and one more are enough, and the loop over a buffer, whose fuel is one more
-- than the bytes in it, as an item takes one byte or more. A number is printed with fuel for 20
-- digits, which is the most that a u64 has.
--
-- Parameters, as they are not in the repository: floats (Float.F64, with what is relied on in
-- F64Laws), the MQTT library (Broker.Defs.Mqtt: matching and encoding), the decoders of packets and
-- of commands (Stream.Defs.Decoder), the encoder of answers (Resp.Encode.Codec), Redis
-- (World.Redis: each command acts on a state of its own, which other clients may share), the writer
-- of JSON and the reader of socket addresses. Of a JSON value the model keeps what the server looks
-- at.
--
-- Not modelled: the handshake of a WebSocket, the routing of HTTP and the decoding of paths and
-- queries, the capacity that tiles_covering_bbox reserves, and the logs. What bind, accept, the start of the Redis client and axum::serve answer
-- is given, as far as they have answered, and so is the order in which select! looks at the tasks;
-- it is the state at that time. A packet of more than MAX_PACKET bytes is malformed to the
-- decoder. In Node a step is one packet, command, request, snapshot or message, and a packet may
-- come with any value of the flag `connect_seen`. The actions of one packet, command or request
-- are in sequence, with other tasks before and after it but not within.
mod Base
pub mod Topic
pub mod Config
pub mod Float
pub mod Payload
pub mod Influx
pub mod Coord
pub mod Broker
pub mod Metrics
pub mod World
pub mod Stream
pub mod Fanout
pub mod Mqtt
pub mod Http
pub mod Resp
pub mod Bridge
pub mod Node
mod Tests
