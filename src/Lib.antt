-- ===== src/Lib.antt =====
-- A model of xk6-sip, an extension of k6 that drives SIP calls with audio, and what is proved of it.
--
-- The program. A device (engine/device.go) places and takes calls. A call (engine/call.go) is one
-- leg; for an outgoing one a loop (engine/uac.go, engine/prack.go) drives the INVITE to its final
-- response. Each call has an RTP stream (media/stream.go) that negotiates a codec by SDP
-- (media/sdp.go, media/codec.go), sends G.711 audio (media/g711.go, media/audio.go) and DTMF events
-- every 20 ms, counts what it receives, and may record both sides (media/record.go).
--
-- The files.
--   Common            numbers, tests, lists, texts and bytes that the components share.
--   Media/G711        UlawEncode, ulawDecode, AlawEncode, alawDecode; Tables and Quantisation
--                     are about what they do to each other.
--   Media/Codec       CodecByName, ParseCodecs, codecByPT.
--   Media/Sdp         ParseSDP, choose, buildSDP; Choice is about the codec that is chosen.
--   Media/Audio       newAudio, Audio.encoded, ParseWAV; Reading is about what ParseWAV comes to.
--   Media/Record      track.put, Recording, WriteWAV; Placement is about where frames go.
--   Media/Scheduler   NewScheduler, add, remove, run, Close; Spread is about the ticks of a stream.
--   Media/Stream/Rx   countSeq and the totals of statsLocked; Totals and Extended are about them.
--   Media/Stream/Dtmf nextDTMF, the packets of an event, receiveDTMF; Queue is about the queue.
--   Media/Stream/State, Negotiation, Sender, Receiver
--                     the Stream and New, Start, Close, SetDirection; Offer, Answer, ApplyAnswer,
--                     Update; SendDTMF, tick, header; readLoop and receive.
--   Media/Stream/Valid, EndToEnd
--                     the invariant of a stream; a sender and a receiver on one network.
--   Engine/Call       newCall, markRinging, markConnected, finish, decide, Accept, Reject, Hangup,
--                     bye, byeWith, sessionExpired, requestCancel, Completion; Invariant and Outcome are about runs of them.
--   Engine/Uac        run, retryWithAuth, retryWithMinSE, established, maybePRACK; Cancel and
--                     Retries are about runs of the loop.
--   Engine/Session    parseSessionExpires, startSession, sessionRefreshed, sessionHeaders,
--                     addSessionHeaders, sessionFromAnswer, sessionForAnswer; Agreement is about
--                     the two sides of a call.
--   Engine/Handlers   runOutgoing, answer, and the wait of onInvite; Settled is about their outcomes.
--   Engine/Device     deliver, ExpectCall, addCall, removeCall, findCall, register, grantedExpires;
--                     Claiming, Table and Registering are about them.
--   Engine/Device/Addressing
--                     NewDevice, targetURI, destinationFor, Start, Destroy; Living is about them.
--   Engine/Incoming   onInvite, callerNumber, setupIncomingMedia; Handled is about its outcomes.
--   Engine/Transfer   parseReferTo, replacedCall, the Refer-To of AttendedTransfer, the progress of a
--                     REFER; Escaping and Attended are about the headers.
--   Engine/Transfer/Referring
--                     Transfer, AttendedTransfer, refer, onNotify, sipfragStatus, onRefer,
--                     followRefer, notifyRefer; Followed is about both ends together.
--   Engine/Saving     useMedia, MarkFailed, autoSave (engine/callmedia.go); Once is about them.
--   Engine/Retransmission
--                     messageKey, checkRetransmission (engine/netio.go), RequestEvent.Failed
--                     (engine/observer.go); Memory is about what a socket remembers.
--   Engine/Dialog     Hold, Unhold, reinvite, refreshSession, onReInvite, onUpdate, onBye, onAck,
--                     reofferAnswer; Holding and Sides are about hold.
--   TestPbx           testpbx/: User, Config, PBX, the legs and bridges, find, link, unlink.
--   TestPbx/Registrar, Calls, Transfers
--                     onRegister, authorized; dial, onInvite, onReInvite, onAck, onBye; onRefer,
--                     blind, attended.
--   TestPbx/Links, Dialling, Connecting, Joining, Relinking, Serving, Runs, Answering, Binding
--                     the table of bridges, what calls and transfers do to it, from the start on;
--                     the final responses to an INVITE; the bindings of a REGISTER.
--   Media/Tests, Engine/Tests, TestPbx/Tests
--                     concrete runs.
--
-- The state of each component is a record with the fields of the source's struct; an operation that
-- the source runs under a lock is a function from that record to the next one, and an interleaving
-- of goroutines is a list of operations. Machine integers are native numbers with the wrap-around
-- written out. A channel is the number of times that it was closed, since closing one twice is a
-- panic. Errors are constructors of result types or `none`.
--
-- Recursion is structural but for two loops. The chunk loop of ParseWAV has the length of the file
-- as fuel: each round consumes at least eight bytes. The printing of a number has the number's
-- successor as fuel: each round divides by ten.
--
-- Parameters: pion/sdp and the net package (`Resolver`), the digest library (`Authorise`), random
-- numbers (`Drawn`) and clocks (`Clock`), which are arguments. Not modelled: floating-point code
-- (the jitter average, Tone, media/quality.go), logs and traces, sockets and timers as such, and
-- the binding to k6.
pub mod Common
pub mod Media
pub mod Engine
pub mod TestPbx
