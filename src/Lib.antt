-- ===== src/Lib.antt =====
-- edencommon: the library that EdenFS, Watchman and Sapling share. This development models the parts
-- of it that carry logic of their own.
--
-- The parts, and the files that model them:
--   Text          eden/common/utils/String.h and String.cpp. A string is the list of its bytes.
--   Path          eden/common/utils/PathFuncs.h and PathFuncs.cpp: the checks that the path types make
--                 when one is constructed (PathComponentSanityCheck is `check_component`,
--                 ComposedPathSanityCheck `check_composed`, RelativePathSanityCheck `check_relative`,
--                 AbsolutePathSanityCheck `check_absolute`), dirname, basename, and the composition of
--                 relative paths (`compose`).
--   Path.Canonical  the rest of eden/common/utils/PathFuncs.cpp that does not touch the file system:
--                 canonicalPathData, canonicalPathImpl, canonicalPath and joinAndNormalize. It uses
--                 the checks of Path, and these the splitting of Text.
--   Path.Order    eden/common/utils/PathFuncs.h: isPathPieceLess and isPathPieceEqual, with the
--                 CaseSensitivity of eden/common/utils/CaseSensitivity.h. KeyOrder is the interface
--                 that PathMap uses and that `piece_order` fills.
--   PathMap       eden/common/utils/PathMap.h: lower_bound, find, insert, operator[], at, erase, count,
--                 the constructors, and collatePathMaps (PathMap.Collate).
--   PathMapMutator  eden/common/utils/PathMapMutator.h: the batch of changes to a PathMap, with the vector
--                 cut into its sorted prefix and suffix, and the erased slots marked.
--   CoverageSet   eden/common/utils/CoverageSet.h and CoverageSet.cpp. The ordered set is a list.
--   BucketedLog   eden/common/utils/BucketedLog.h. The template's Bucket is the interface BucketOps,
--                 which the client gives; the ring is a function of the index.
--   IdGen         eden/common/utils/IDGen.cpp. A run is the list of the calling threads.
--   TraceBus      eden/common/telemetry/TraceBus.h and TraceBus-inl.h. TraceBus.Steps has one step for
--                 each hold of the lock by a caller or by the background thread, and one for the calls
--                 of the subscribers between two holds.
--   FaultInjector  eden/common/utils/FaultInjector.h and FaultInjector.cpp. A step is a hold of the lock
--                 (FaultInjector.Settled); FaultInjector.Checks is checkAsyncImpl, FaultInjector.Inject
--                 the calls that make a fault, FaultInjector.Wait the loops that poll. The match of a
--                 regular expression is a parameter, and so is which texts are one.
--   UnixSocket    eden/common/utils/UnixSocket.h and UnixSocket.cpp, for messages: UnixSocket.Send is
--                 serializeHeader, the queue entries, trySendMessage and the loop of trySend;
--                 UnixSocket.Receive callRecvMsg, tryReceiveOne with its parts, and tryReceive. sendmsg
--                 and recvmsg are the interfaces Sender and Receiver over a state of the kernel, with
--                 their documented laws (SentAs, ReceivedAs); a file is a number. UnixSocket.Lifecycle is close,
--                 closeNow, socketError, send and the registration for events, with what the two others
--                 get done given. Of the checks of a debug build (XDCHECK), the two with which
--                 tryReceiveOne starts are modelled, where its argument `debug` says that the build is
--                 one; the others are left out.
--   MappedDiskVector  eden/common/utils/MappedDiskVector.h: open, emplace_back, pop_back and the Migrator,
--                 over the sizes of the map and of the file and the answers of the system calls.
--   FileDescriptor  eden/common/utils/FileDescriptor.cpp: wrapFull with its callers, and wrapvFull for writes.
--
-- Paths are those of POSIX: `folly::kIsWindows` is false. PathFuncs.h checks the bytes of a component
-- by isValidUtf8, which the definitions of Path take as a parameter. The working directory of
-- canonicalPath is a parameter too.
--
-- Bounds and fuel. The loop that splits a string, and the one that checks a composed path, run on fuel:
-- one round more than there are bytes, and each round that goes on passes a separator. That this is
-- enough is part of what is proved of `split` and of `check_composed`, which are compared with
-- functions that recur on the text itself. The polling loops of
-- FaultInjector.Wait have one round more than the timeout has milliseconds, since each round that goes
-- on sleeps for one. The loops around system calls recur on the list of the answers, or (tryReceiveOne)
-- are called as often as the wire has bytes, and once more. The other loops recur on the list that they go over, or on
-- the number of rounds that the source fixes before it starts. `uint64_t` arithmetic is taken modulo
-- 2 ^ 64; results that need the clock or the counter not to wrap say so. A `size_t` is a natural number
-- where the code only compares it.
--
-- Not modelled: the calls of the operating system themselves (connecting sockets, processes, files, the
-- file system side of PathFuncs), the futures, the logging back ends, and what is a thin wrapper of folly. OptionSet
-- has logic of its own and is not modelled.
pub mod Common
pub mod Text
pub mod Path
pub mod PathMap
pub mod PathMapMutator
pub mod CoverageSet
pub mod BucketedLog
pub mod IdGen
pub mod TraceBus
pub mod FaultInjector
pub mod FileDescriptor
pub mod MappedDiskVector
pub mod UnixSocket
