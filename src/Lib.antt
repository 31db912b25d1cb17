-- ===== src/Lib.antt =====
-- QtZeroConf, a Qt class for zero configuration networking (DNS-SD): an application publishes a
-- service and browses for the services of others. The class QZeroConf (qzeroconf.h) has one wrapper
-- for each platform, of which a build takes one: avahiclient.cpp over the Avahi client library,
-- avahicore.cpp over an Avahi server in the process, bonjour.cpp over dns_sd, and androidnsd.cpp
-- with QZeroConfNsdManager.java over Android's NsdManager.
--
-- Files:
--   Base        names passed on from the libraries, and lists and tests over native numbers
--   Text        QString and QByteArray as lists of units, with their equality and order
--   QMap        QMap as the list of its pairs in the order of the keys; QHash likewise
--   Service     qzeroconfservice.h and the signals of qzeroconf.h
--   Avahi       the types and calls of Avahi that avahiclient.cpp and avahicore.cpp share
--   AvahiClient avahiclient.cpp
--   AvahiCore   avahicore.cpp, with the server that all objects of a process share
--   Bonjour     bonjour.cpp and bonjour_p.h; Bonjour/Wire the bytes of a TXT record
--   AndroidNsd  androidnsd.cpp and androidnsd_p.h; AndroidNsd/Threads the objects of a process
--               with the Android thread and the Qt thread, AndroidNsd/Process their interleavings,
--               AndroidNsd/Listeners the wrapper and its Java class together
--   NsdManager  QZeroConfNsdManager.java
--   ZeroConf    qzeroconf.h as an interface, which the modules Interface of AvahiClient, AvahiCore
--               and AndroidNsd fill
--   Window      example/window.cpp, example/window.h and example/main.cpp, over any QZeroConf
--
-- State and operations. Each wrapper has a record State with the members of its QZeroConfPrivate
-- and the map `services` of QZeroConf. A pointer of a library is a number, and NULL is `none`. A
-- QZeroConfService is a shared pointer: the objects are one list, and a handle is an index of it,
-- so that maps and signals name the same object. A Resolver of bonjour.cpp is an index of a list
-- in which a deleted one is `none`. A function that uses a deleted one has no result, nor has a loop
-- over a QHash that goes on after its body removed an entry, since its iterator is then invalid. An
-- operation takes the state to the state after it and the list of its effects, in order: signals
-- emitted and calls of the library below. Its name is that of the function of the source, in
-- lower case: browseCallback is browse_callback. An Entry is whatever calls into a wrapper, a method
-- or a callback, `step` makes one entry, and `run` makes a list of them: any interleaving.
--
-- What the code takes from elsewhere is an argument: Service.Externals, AndroidNsd.Platform and
-- NsdManager.Platform hold the functions of Qt, of the Avahi string lists and of Android,
-- Avahi.Replies and Bonjour.Reply what a call returns, and Bonjour.Visits the order in which a
-- loop visits a QHash that its body does not change. A hypothesis on these, or on the order of callbacks (a library calls back
-- only through an object that is not freed), stands with the theorem that uses it.
--
-- Bounds. A quint16 is kept modulo 2 ^ 16. The loop of bonjour.cpp over the bytes of a TXT record
-- runs on fuel: a whole record needs a turn for each entry and one more. A read over the end of the
-- record is a result of its own, at which the model stops.
--
-- Not modelled: the signatures of the native methods in the constructor of androidnsd.cpp; the
-- mutex of QZeroConfServiceData, which orders reads and writes of one member; a slot that calls
-- back into the object while it emits; a `const char *` that is NULL, which is not told apart from
-- an empty text, and the conversion of the name, the type and the domain to QString and back while a
-- registration of avahicore.cpp waits; the sizes in pixels of the example's window; and the copies
-- of other projects in avahi-common, avahi-core, avahi-qt and bonjour-sdk, whose calls are effects
-- and replies.
mod Base
pub mod Text
pub mod QMap
pub mod Service
pub mod Avahi
pub mod AvahiClient
pub mod AvahiCore
pub mod Bonjour
pub mod NsdManager
pub mod AndroidNsd
pub mod Window
pub mod ZeroConf
