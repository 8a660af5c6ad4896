-- ===== src/Lib.antt =====
-- A verification library for CIPster, a stack for EtherNet/IP adapters in C++ (source/src).
--
-- A CIP message travels in an encapsulation message, on a TCP connection or in a UDP datagram. Every
-- layer reads its part with a BufReader and writes its reply with a BufWriter, both bounded by the
-- buffer of the layer below, and names the objects of the device by a path of segments.
--
-- Base       lists with a native length, Boolean tests, the bit operations on bytes that paths use,
--            and Result, the outcome of code that throws. An Error is a class of exceptions;
--            out_of_fuel is of the model only.
-- Bytes      source/src/byte_bufs.h, byte_bufs.impl and enet_encap/byte_bufs.cc. A BufReader is the
--            list of the bytes between its two pointers (Bytes/Reader), a BufWriter the bytes written
--            so far and those that it may still overwrite (Bytes/Writer). A byte is a number, an
--            integer that is put is cut to its width by a remainder. Bytes/Append has the law that a
--            chain of writes is one write of all the bytes, Bytes/RoundTrip what is read back.
-- Epath      source/src/cip/cipepath.h and cipepath.cc: application paths (Epath/AppPath), port
--            segments (Epath/Port), electronic keys (Epath/Key), data segments (Epath/DataSegment)
--            and the group of the segments before an application path (Epath/Group). aCtl is a number
--            whose bits are the flags of CTL_FLAGS (Epath/Flags).
-- Encap      source/src/enet_encap/encap.h and encap.cc: the session manager (Encap/Session, with the
--            ageing of idle connections in Encap/Session/Age), the header of a message
--            (Encap/Header) and the commands that need no other layer (Encap/Commands). The calls that
--            leave the session manager are a log. getpeername(), rand() and RAND_MAX are parameters.
-- Cpf        source/src/enet_encap/cpf.h and cpf.cc: the items of a packet, their parser (Cpf/Reading)
--            and their writer (Cpf/Writing). What the parser changes before an item fails stays
--            changed. A payload is an object with the two operations of class Serializeable, whose
--            promise (Cpf.Encode.Serializes) the responses of the router keep.
-- Cip        source/src/cip: the sorted vectors of cipclass.cc and the searches of cipcommon.h
--            (Cip/Table), over items of any type with an id, a class with its instances and
--            services and the class registry (Cip/Class), the values of attributes, encoded and decoded
--            by cipcommon.cc (Cip/Data), attributes and their insertion (Cip/Attribute), and the
--            services that read and write them (Cip/Access). Getters and setters are parameters.
-- Router     source/src/cip/cipmessagerouter.h and cipmessagerouter.cc: requests (Router/Request),
--            responses (Router/Response) and the dispatch to a service (Router/Notify), and the way of
--            an unconnected packet through all of them (Router/Dispatch, of cpf.cc). What the services
--            do to the world, the response and the packet is a parameter.
-- Conn       source/src/cip/cipconnection.h and cipconnection.cc: the bit fields of a request
--            (Conn/Params) and of a frame (Conn/Header32), the connection path (Conn/Path), the request
--            (Conn/Data, measured by Conn/Count), the objects that it names
--            (Conn/Resolve), its sizes (Conn/Sizes) and the state of a connection (Conn/State); how
--            connections end (Conn/Close, with the closing functions of appcontype.cc); and of
--            cipconnectionmanager.h and cipconnectionmanager.cc the list of active connections by its links
--            (Conn/Box), the pass over it (Conn/Manage) and the frames that come (Conn/Receive, with
--            RecvData() of cipassembly.cc), those that are looked for (Conn/Find) and the expectations of
--            appcontype.cc (Conn/Pool). A CipConn* is an address, and the list the sequence of them.
--            The clock, the sizes of assemblies and what the application answers are parameters.
--
-- A function that returns a count of bytes and leaves the caller to advance returns the advanced
-- reader or writer here. The values of a path are 32 bit patterns in place of int.
--
-- Fuel: the loop over the logical segments of a path (Epath.AppPath.Deserialize.logical_loop) has
-- five rounds, since each segment is of a lower level than the one before it and there are four.
-- The loop over a segment group (Epath.Group.group_loop) has as many rounds as there are bytes. A
-- binary search (Cip.Table.search_loop and gte_loop) has as many rounds as the vector has items,
-- since its range shrinks in each. The loop over the items of a packet has the rounds that its
-- count gives. The loops over the active connections (Conn.Close.close_loop and class3_loop,
-- Conn.Find.close_heads, Conn.Manage.visit_loop) have as many rounds as there are connections, since a
-- round moves down the list.
--
-- Not modelled: floats, text for traces, iconv (the build without it is), sockets, the dispatch of
-- encapsulation commands, GetAttributeAll, connected packets of the message router; of connections the
-- services that open and close them, their sockets, configuration data and the packet that
-- SendConnectedData() builds; and the objects of the device: the attributes of assemblies and the
-- identity, TCP/IP and Ethernet link objects.
pub mod Base
pub mod Bytes
pub mod Epath
pub mod Cip
pub mod Conn
pub mod Cpf
pub mod Encap
pub mod Router
