-- ===== src/Lib.antt =====
-- rk_firmware_flashd: the daemon that takes firmware for a device over HTTP or a serial line.
--
-- Every client, over HTTP or on the serial line, sends AT commands. A session lock, held by one of
-- the two sides, decides whose commands are processed; the processor reads a command and calls its
-- handler; the handlers of the upload and of the flash operation keep their state between commands.
--
-- Checksums (include/checksum.h): Checksum/Crc16 is the class CRC16, Checksum/Md5 the class MD5,
-- with the table of its rounds in Checksum/Md5/Rounds. Bytes are natural numbers below 256; the
-- words of 16, 32 and 64 bits wrap by `% 2 ^ w`; `size_t` and `unsigned long` have 64 bits
-- throughout, as in a 64-bit build. `Md5.blocks` is the loop of `MD5::update`, with the number of
-- bytes as fuel: each round takes 64. Checksum/Crc16/Detection, Checksum/Md5/Blocks, Stream and
-- Digest hold the proofs about them. Checksum/Md5/Rfc1321 is the digest as RFC 1321 defines it,
-- with a table and functions of its own, and Checksum/Md5/Standard compares the two.
--
-- Upload protocol (src/at_handler/handler_upload.cpp): Upload has the state `UploadState` and the
-- handlers `handle_preupload`, `handle_upload_frame`, `handle_uploaddone`, `handle_uploadcancel`,
-- which keep their names. Upload/Requests and Upload/Frames read the arguments of a command,
-- Upload/Replies has a constructor for each answer and its text. Files is the file system as a
-- function from paths to contents. What fopen, fwrite and rename answer is the argument `Calls`;
-- what is written is in the file at once, with no buffer between. A path is taken whole, also where
-- it holds a NUL byte. Log output is left out everywhere. Upload/Contract is the abstract machine
-- that the commands implement, and how its phases stand for the state; Upload/Wire is what a client
-- sends; Upload/Sending and Upload/RoundTrip follow a client through a transfer, Upload/Faults,
-- Upload/ShortWrite and Upload/Capitals through one that goes wrong.
--
-- Flash operation (src/at_handler/handler_flash.cpp): Flash has the record `FlashOp`, the thread
-- `async_flash_worker` as steps from one access of the record to the next (`worker_step`), and
-- `handle_flash`, `handle_flashdone`. `Outcome` tells an answer from std::terminate. `join` takes
-- four steps, which is all that a thread has. Flash/Runs follows one operation, Flash/Phases and
-- Flash/Honesty any interleaving.
--
-- Processor (src/at_command.cpp, src/at_handler): Command has `process`, the dispatch and the two
-- resets, Command/Parse the trimming and `parse_at`, Command/Local the handlers without a state of
-- their own; `Surroundings` is what they find outside of the program. `read_blocks`, the loop of
-- AT+VERIFY, has one more than the number of bytes as fuel, and each round takes at least one byte.
-- Command/Verify is about AT+VERIFY, Command/Injection about what AT+FLASH gives to the shell,
-- Command/Uploading about the lines of an upload.
--
-- Lock (src/serial_daemon.cpp): Lock has the operations on the owner. Lock/Interleaving has the
-- HTTP thread and the reader thread as sequences of atomic operations that interleave freely;
-- Lock/Interleaving/Exclusion says who is inside. Sources of commands
-- (src/http_handler/handler_command.cpp, src/http_handler/handler_reset.cpp,
-- src/http_handler/handler_status.cpp, src/serial_daemon.cpp): Session has `handle_command` and
-- `reader_line`, each run as a whole; Session/Holding and Session/Bypass say who is let in;
-- Session/Transfer follows a client through an upload by HTTP while lines come from the serial
-- side, Session/Transfer/Answers the answers that it gets.
--
-- Uploads of files by HTTP (src/http_server.cpp, src/http_handler/handler_upload.cpp): HttpUpload
-- has the validator, the callback of the multipart parser (`on_field`), `handle_upload` and the
-- destructor; HttpUpload/Names is about the validator, HttpUpload/Parts and HttpUpload/Saving about
-- a file in parts. Session/Body is about the body of a command in parts.
--
-- Lines of the serial device (src/serial_port.cpp): SerialPort has `read_line` and what `writeLine`
-- sends; SerialPort/Lines is about lines in time and lines that a time-out cuts.
--
-- Command line (src/config.cpp): Configuration has `parse_args`; Configuration/CommandLine is about
-- whole command lines.
--
-- Serial port (src/serial_port.cpp): SerialPort/Device has `open_port`, `close` and what they hold
-- of the system; SerialPort/Device/Ownership is about nothing being lost on the way.
--
-- Life of the serial daemon (src/serial_daemon.cpp): SerialDaemon has `start`, `start_reader`, and
-- the main thread in `stop_reader` and `stop` (`main_step`) against the loop of the reader
-- (`reader_step`); a schedule is a list of turns. SerialDaemon/Potential has the argument for
-- termination, SerialDaemon/Steps and SerialDaemon/Ranks the two potentials, SerialDaemon/Phases
-- what holds on the way, SerialDaemon/Stopping the end, SerialDaemon/Reconnecting what happens to
-- an open port, SerialDaemon/Commands how the steps behind a line come to what Session does with
-- it. No fuel is needed: the turns that are enough are in the theorem.
--
-- HTTP server (src/http_server.cpp): HttpServer has the calls of `accessHandler`, with `first_call`
-- for the first and `dispatch` for the others, and `request` for all calls of one request;
-- HttpServer/Requests compares it with a request that is answered at once, and
-- HttpServer/Requests/Routes has the routes. HttpServer/Answers has what is sent for each outcome;
-- HttpServer/Answers/Unchanged is about answers that tell of an error, HttpServer/Answers/Undumped
-- about those that the JSON library does not print. HttpServer/Answers/Utf8 has the texts that it
-- prints, HttpServer/Answers/Texts those of an upload. HttpServer/Transfer follows a client through
-- an upload by requests.
--
-- Log (src/logger.cpp): Logger has `log` and the macros; Logger/Lines is about what they write.
--
-- Process (main.cpp, src/daemon.cpp): Process has `mkdir_p`, the paths and `daemonize`,
-- Process/Main has `main`, where the serial daemon, the HTTP server and the log come together;
-- Process/Directories, Process/Paths and Process/Background are about the start, Process/Loop,
-- Process/Shutdown and Process/Ending about the loop of `main` and its end.
--
-- Prelude: what the modules share: Boolean tests and lists on the native numbers, strings as lists
-- of bytes (Prelude/Text), numbers in text (Prelude/Number), results (Prelude/Result). Modules
-- named Tests run the definitions on concrete data.
--
-- Not modelled: how the JSON library prints and parses; a build with a `size_t` and an `unsigned
-- long` of 32 bits, in which AT+UPLOAD reads a frame length above 2 ^ 32 - 1 as 2 ^ 32 - 1; the log
-- output of the other components; HTTP requests while the loop of `main` runs or ends (the lock's
-- interleavings are in Lock); the flags of termios; the inherited descriptors of a start in the
-- background; the usage text; sendText, which is called by nothing. Tests, scripts and build files
-- are not part of the daemon.
pub mod Prelude
pub mod Files
pub mod Checksum
pub mod Upload
pub mod Lock
pub mod Flash
pub mod Command
pub mod Session
pub mod HttpServer
pub mod HttpUpload
pub mod Logger
pub mod SerialDaemon
pub mod SerialPort
pub mod Configuration
pub mod Process
