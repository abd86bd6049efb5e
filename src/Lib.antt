-- ===== src/Lib.antt =====
-- libpalmsocket: the socket library of webOS. A channel is a GIOChannel over a plaintext or SSL/TLS
-- connection. It is driven by a hierarchical state machine, which watches its descriptor with a GSource
-- of its own and calls the user back when a connection is made or fails.
--
-- The parts that are modelled here, with their files below src/ of the repository:
--
-- * Errors models src/psl_error_utils.c and the error codes of
--   include/public/palmsocket/palmsockerror.h; Errors.Openssl is the part that reads OpenSSL's error
--   stack, and Errors.Openssl.Stack has its theorems.
-- * Time models src/psl_time_utils.c. Times are not negative, as the code asserts; conversions to `int`
--   write out their range.
-- * IoBuf models src/psl_io_buf.h over an array of glib, which is a parameter (GArray) with the laws
--   that g_array_set_size documents. Sizes are signed as in the source.
-- * FdWatch models src/psl_multi_fd_watch.c: FdWatch.Table the table of descriptors, FdWatch.Conditions
--   the GIOConditions, and FdWatch itself the operations and the callbacks of the GSource. glib is the
--   list of the descriptors whose poll records it was given. The clock is an argument.
-- * Inet models src/psl_inet_utils.c over system calls that are a parameter (InetSys).
-- * Hostname models src/psl_x509_utils.c: whether a certificate's name, possibly with a wildcard, stands
--   for a host; Hostname.Loop and Hostname.Wildcard have its theorems. `toupper` of the C library is a
--   parameter.
-- * Certificate models PmSockOpensslVerifyHostname of src/psl_openssl_utils.c over Hostname and Inet:
--   which names of a certificate count for a host, and whether one matches. Certificate.Names and
--   Certificate.Hosts have its theorems.
-- * Fsm models the channel's state machine. Fsm.Types has its data (src/psl_channel_fsm_main.h,
--   src/psl_channel_fsm_events.h), Fsm.Transitions the requests for transitions, Fsm.Sme the dispatch of
--   events (src/psl_sme.c, src/psl_sme.h), Fsm.Main the common states and Fsm.Callbacks the callbacks to
--   the user (src/psl_channel_fsm_main.c), Fsm.System, Fsm.Sockets, Fsm.Conn, Fsm.Io and Fsm.Plain the
--   plaintext states (src/psl_channel_fsm_plain.c), and Fsm.Events what dispatches events from outside:
--   full events with their heartbeats (src/psl_channel_fsm_events.c), finalizing, and the callback of the
--   host lookup. Fsm.Ready, Setup, Connecting, Configured, Descriptors, Transfer, Closing, Delivery and
--   Running have the theorems.
-- * Crypto models the crypto part of the state machine (src/psl_channel_fsm_crypto.c and .h).
--   Crypto.Types has the input and output of a session and OpenSSL's reads and writes, Crypto.Read and
--   Crypto.Write crypto_read_low and crypto_write_low, Crypto.Watching what is watched for and the hints
--   to the user, Crypto.Deferred the deferred reads and writes, Crypto.Transfer the events READ and WRITE,
--   Crypto.Machine the whole machine and OpenSSL's other calls, Crypto.Handshake, Crypto.Renegotiate and
--   Crypto.Shutdown those protocols, Crypto.States, Crypto.Active and Crypto.Shut the state handlers, and
--   Crypto.Verify the verification of the peer's certificate. Session, Sound, Pieces, Reading, Writing,
--   Flushing, Sweeping, Steps, ReadSteps, Rounds, Preprocessing, Receiving, Reporting, Accepting and
--   Stream are about the byte streams, Accepted about certificates, RenegotiateLost about a failed
--   renegotiation.
-- * OpensslInit models src/psl_openssl_init.c on Refcount, which models src/psl_refcount.h. The mutex
--   makes each operation one step.
-- * SslContext models src/psl_ssl_context.c over OpensslInit and Refcount: SslContext.Life what a
--   context takes and gives back, SslContext.References its users. What OpenSSL answers is a parameter
--   (CtxCalls).
-- * Base has what they share: tests, lists and integers over the native numbers.
--
-- A state handler takes an event and the machine and gives the machine and a status, as in the source;
-- the machine's `calls` is a trace of what leaves it: descriptors opened and closed, references taken
-- and dropped, callbacks of the user. A failed PSL_ASSERT is `none` everywhere, as the assertion aborts
-- the process; so is following a NULL pointer. What the code writes to its log is left out.
--
-- System calls, glib, OpenSSL, c-ares and the state machine engine are parameters. The engine's
-- FsmDispatchEvent is one (Fsm.Sme.Engine). Loops are over lists; the loop that repeats an interrupted
-- call is over the results of the successive calls. Two loops run on fuel: that over pending heartbeats,
-- which the code repeats as long as the handlers ask for another one, and the match of names, where more
-- fuel than the host's name has octets is enough. The loops of crypto_read_low and crypto_write_low take
-- one unit for each byte that is asked for, which is enough as OpenSSL moves a byte at least in each
-- round that succeeds. The loop of deferred input and output is given two rounds, which is enough as a
-- second round is only needed for the output. crypto_do_shutdown has a bound on its rounds as an
-- argument, since the code repeats SSL_shutdown as long as OpenSSL says that only one direction is shut.
--
-- A session of OpenSSL is a state with functions for its calls (Crypto.Types.Openssl,
-- Crypto.Machine.OpensslCtl). Crypto.Session.Streams is what the manual says of them: a read or a write
-- that succeeds moves between 1 and the asked number of bytes, one that fails moves none and says why,
-- and a read of bytes that are buffered does not wait for the descriptor.
--
-- Not modelled: the creation of the state machine with its tree of states, the channel's public
-- functions (src/psl_channel.c), its watch (src/psl_channel_watch.c), the host lookup
-- (src/psl_host_lookup.c), which the LOOKUP state takes as a parameter, the look for a certificate in
-- the store (PmSockOpensslMatchCertInStore of src/psl_openssl_utils.c), which the verification of the
-- peer takes as a parameter, as it does the match of the host's name, thread contexts
-- (src/psl_thread_context.c), and logging.
pub mod Base
pub mod Certificate
pub mod Crypto
pub mod Errors
pub mod FdWatch
pub mod Fsm
pub mod Hostname
pub mod Inet
pub mod IoBuf
pub mod OpensslInit
pub mod Refcount
pub mod SslContext
pub mod Time
