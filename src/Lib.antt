-- ===== src/Lib.antt =====
-- A model of the Linux tools of the YDYun virtual desktop: the SPICE data channel and the USB/IP
-- controller with its backward-link bridge.
--
-- The program's parts. linux/src/ydyun_spice.py reads and writes frames of the SPICE protocol; it
-- keeps no state but the buffer of a parser. linux/src/ydyun_usbctl.py attaches and exports USB/IP
-- devices, and as `backward-bridge` it accepts connections from the cloud, checks one frame of
-- each, queues it under its bus ID, and joins it to a local USB/IP client that asks for that bus
-- ID; the joined sockets carry raw bytes, or frames that an LZ4 codec wraps. Both get their
-- settings from one INI file. linux/src/ydyun_session.py checks the response that describes a
-- session, prints it without its secrets and writes the loader's configuration.
-- linux/src/ydyun_ice_probe.py reads a recorded SPICE stream with the parser and writes its video
-- samples to files.
--
-- Base: names of the libraries, Boolean tests on numbers (Tests), lists (Lists), results of code
-- that raises (Results), little and big endian fields as `struct` writes them (Bytes), signed
-- 32-bit fields (Int), Python's text operations (Strings), `int` and `str` of whole numbers
-- (Decimal), `float` (Floats) and `ipaddress.ip_address` (Address). A byte or a character is a
-- number.
--
-- Spice.Frame: SpiceLinkHeader, SpiceDataFrame, parse_link_header, parse_data_frame. Frame.Laws
-- has the lemmas on single frames and Frame.Packets packs frames as a sender does.
-- Spice.Stream: SpiceDataParser with its buffer, feed and buffered_bytes. Stream.Loop is about the
-- loop, Stream.Chunks about a call on part of a stream, Stream.Delivery about the calls on all
-- parts.
-- Spice.Names: the tables of names. Spice.Clip: _read_clip_metadata. Spice.Display:
-- decode_display_message and extract_display_sample; Display.Samples and Display.Clips hold the
-- lemmas. Where the source reads with `struct.unpack_from` or an index, the model raises what
-- Python would raise out of range.
-- Spice.Inputs: decode_inputs_message, _checked_input_int, encode_inputs_message;
-- Inputs.RoundTrip.
--
-- Usb.Names: _validate_busid. Usb.Lz4: _lz4_length and _lz4_decompress_block, with a position in
-- the data modelled by the bytes from it on; Lz4.Blocks is the block format as a data type, in
-- which a match is a window that is repeated, Lz4.Copies compares that with the decoder's copying,
-- and Lz4.Rounds and Lz4.Accepted read a decoder's run back. Usb.Socket: _recv_exact on a socket
-- that is a list of chunks and failures. Usb.Codec: the wrapper of compressed frames.
-- Usb.Backward: parse_backward_frame and backward_frame_busid.
-- Usb.Queue: the queue of PendingLink with _take_pending and _remove_pending. Usb.Bridge: class
-- BackwardBridge, its handlers cut at the points where other threads may run; Bridge.Steps is the
-- step relation of those parts, in any order.
-- Usb.Ports: port_indexes_for_busids and busids_in_ports on the text that `usbip port` prints.
-- Usb.Watch: watch and export_watch on the answers of the calls that they make, which may raise
-- any exception; Watch.Members is about their sets, Watch.Caught about their exceptions,
-- Watch.Configured about the devices in them, Watch.Sorted about `sorted`, Watch.Shutdown about
-- their ends. Usb.Relay: _relay_sockets, a round for each receive; Relay.Request joins it to the
-- request that BackwardBridge has read.
-- Usb.Export: export_device with _local_interface_bindings, _release_local_usb_drivers and
-- _restore_local_usb_drivers, which give the writes to sysfs that they make.
--
-- Usb.Bridge.Joins: what the bridge can do next for a client that waits.
-- Usb.Settings: the checks on single values, ConfigFile as configparser gives it;
-- Settings.Connection has load_settings, Settings.Backward load_backward_settings, Settings.Header
-- build_vendor_proxy_header; Settings.Values, Backward.Accepted and Header.Layout are about what
-- they accept and build.
-- Usb.Probe: check_remote, probe_protocol and probe_link_protocol on the addresses of a host, each
-- with what its connection delivers; Probe.Attempts is about the loop over them, Probe.Answers
-- about the replies.
-- Usb.Script: what a command does to a machine, as the list of its actions (processes, writes to
-- sysfs, connections), where the answer to an action may depend on all actions before it;
-- find_usbip, run_checked, ensure_modules. Usb.Commands: the commands that are built on them, and
-- _auto_detach; Commands.Order and Commands.Detach are about the actions and their order.
-- Usb.Doctor: doctor. Usb.Main: main on an accepted command line; Main.Configured.
-- Spice.Viewer: parse_viewer_connection_url and the redacted view of a URL; Viewer.Shape.
-- Spice.Probe: main of the ICE probe, its loop over the frames with the sample files;
-- Probe.History says what the frames before determine, Probe.Steps is about one round, Probe.Run
-- about a run.
--
-- Session.Json: the values of json.loads and _first. Session.Fields: _text, _host, _port.
-- Session.Descriptor: parse_session. Session.Secrets: redacted. Session.Config: loader_config and
-- write_private_config; Config.Lines reads the file back. Session.Main: main; Main.Exit is about
-- its status. Fields.Accepted and Descriptor.Accepted say what a descriptor that is returned can
-- hold.
--
-- Bounds and fuel. The limits are the source's constants, and a field of w bytes is below 256 ^ w.
-- The loop of `feed` has one round more than the buffer has bytes, the LZ4 loop one for each byte,
-- and the receive loop one for each byte asked for; every round takes at least one byte, and the
-- run out of fuel is an outcome of its own. Lengths that LZ4 extends are read by recursion on the
-- bytes. Lists of addresses, frames, commands and lines are read by structural recursion. `int`
-- reads the decimal digits of Unicode 14 and raises on more than 4300 of them; a finite `float` is
-- a whole number of units of 2 ^ -1074, rounded to even.
--
-- Tests: runs on concrete inputs.
--
-- Not modelled: logging and the text of reports; the clock, where a deadline is a step that may
-- happen at any time; socket options, listeners and select, where accepting is a step; what a
-- process does, of which a model has the outcome; the parsers configparser, json, argparse and
-- urlsplit, of which a model has the result; KeyboardInterrupt; a disk that fails in the middle of
-- a write. Usb.Main takes the outcome of the bridge, of watch and of an export as arguments, and
-- is not joined to the modules of these. Fairness of threads is not modelled: a step that can be
-- taken need not be taken.
pub mod Base
pub mod Session
pub mod Spice
pub mod Usb
pub mod Tests
