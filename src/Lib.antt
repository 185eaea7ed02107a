-- ===== src/Lib.antt =====
-- Verification of pywayland, Python bindings for libwayland.
--
-- pywayland has two halves. The scanner (pywayland/scanner) reads protocols from XML and writes a
-- Python package for each, with a module for each interface. The run time (pywayland/protocol_core,
-- pywayland/dispatcher.py, pywayland/client, pywayland/server) is what the generated modules are
-- written against: their decorators build messages, their methods convert values to C and pass them
-- to libwayland, and libwayland's calls come back through the dispatcher.
--
-- Which file models what:
--   Base and its modules: what the others share. Numbers, lists, texts, dicts and words as Python's
--     standard types have them, and `Result` for what may raise.
--   Scanner/Xml: pywayland/scanner/element.py (`Element`, and the tree that it reads).
--   Scanner/Printer, Scanner/Printer/Names, Scanner/Printer/Docs: pywayland/scanner/printer.py.
--     `line` is `Printer.__call__`, `indented` the context manager, `docstring` and `doc` the
--     methods; `Scanner/Printer/Layout` has the lemmas on what printing adds.
--   Scanner/Description: pywayland/scanner/description.py and pywayland/scanner/copyright.py.
--   Scanner/Entry, Scanner/Enum: pywayland/scanner/entry.py, pywayland/scanner/enum.py.
--   Scanner/ArgumentType, Scanner/Argument: pywayland/scanner/argument.py.
--   Scanner/Method, Scanner/Method/Request, Scanner/Method/Event: pywayland/scanner/method.py,
--     request.py and event.py. What the subclasses override is the record `MethodClass`.
--   Scanner/Interface: pywayland/scanner/interface.py; `Interface/TopLevel` tells the statements of a
--     module from what is indented.
--   Scanner/Protocol: pywayland/scanner/protocol.py, and the dict and the loop of `main` in
--     pywayland/scanner/__main__.py. What is done to the file system is a list of effects.
--   Scanner/Main: the rest of pywayland/scanner/__main__.py, the search for protocols among it.
--   ProtocolCore/Argument, ProtocolCore/Message: pywayland/protocol_core/argument.py and message.py.
--     `Message/ToC` is `arguments_to_c` and `Message/ToPython` is `c_to_arguments`.
--   ProtocolCore/Interface: pywayland/protocol_core/interface.py; `event` and `request` are what the
--     decorators do, and `gen_c` is `_gen_c`, by the struct that it leaves. `Interface/Memory` has
--     the objects of C that it makes, and what its weak dict keeps of them.
--   ProtocolCore/Proxy: `_marshal` and `_marshal_constructor` of pywayland/protocol_core/proxy.py and
--     `_post_event` of pywayland/protocol_core/resource.py.
--   ProtocolCore/Resource, ProtocolCore/Global: pywayland/protocol_core/resource.py and globals.py.
--   ProtocolCore/Proxy/Registry: `Proxy.__init__` and `_destroy` of pywayland/protocol_core/proxy.py,
--     with the registries of the interfaces; an object is known by its place.
--   Client: `connect`, `disconnect` and the context manager of pywayland/client/display.py, the
--     `destroy` that a display inherits from pywayland/protocol_core/proxy.py, and the
--     pointers of proxies (pywayland/protocol_core/proxy.py) and queues
--     (pywayland/client/eventqueue.py). A `Session` is
--     a display with its children and the calls made so far. `Client/Contract` is what libwayland
--     asks of such calls, and `Client/Lifecycle` has the steps that a client can take.
--   Client/Events: the other methods of pywayland/client/display.py, and `ensure_valid` of
--     pywayland/utils.py.
--   Dispatcher, Dispatcher/Dispatch: pywayland/dispatcher.py.
--   Server, Server/Callbacks: pywayland/server/eventloop.py. The sources of a loop are a list, of
--     which the program may discard some, as the loop holds them weakly; its calls of libwayland are
--     recorded.
--   Server/Display: pywayland/server/display.py and pywayland/server/client.py, as far as pointers are
--     made and freed. A display is there with the clients of the program and the calls made so far;
--     `Server/Display/Contract` is what libwayland asks of the calls.
--   Server/Methods: the methods of displays, clients, sources, loops and resources that need a
--     pointer.
--   Server/Listeners: pywayland/server/listener.py. The objects of a program are lists, and
--     libwayland's lists of listeners are a world of their own.
--   Utils: `AnonymousFile`, `wl_container_of` and `wl_list_for_each` of pywayland/utils.py.
--   Generated: the generated methods beside the messages that they are for.
--   Delivery: an event from the resource that sends it to the callback of the proxy, and what becomes
--     of a request on the other side.
--   Packaging: the command of setup.py, and doc/protocol_build.py.
--   Documentation: `protocol_doc` of doc/conf.py; the output directory is a dict of its entries.
--   Tests: concrete inputs, runs, and the theorems at them.
-- A classmethod `parse` is a function `parse_…` into `Result`; a method `output` is a function
-- `output_…` from a printer to a printer or an exception; attributes are the fields of records.
--
-- What is a parameter: `Library` (textwrap.fill, textwrap.dedent and the substitution of re),
-- `Cffi` (the conversions of cffi that may raise, the reads of unions, and the fixed-point
-- functions, with `IsLawful` for their laws), `Objects` (the pointers of objects and the registries
-- of interfaces), `Callbacks`, `LoopCallbacks` and `Notifications` (Python functions on worlds of
-- their own), `Libwayland`, `ServerLibrary`, `ResourceLibrary` and `GlobalLibrary` (the functions
-- of libwayland that the methods call), `SignalLibrary` (libwayland's lists of listeners, with
-- `IsLawful` and `IsOrdered` for their laws), `from_handle` (the object that a handle of cffi leads
-- to, or what is raised for a pointer that is none), `fresh` (where cffi allocates, with
-- `IsFresh`), `ScannerSystem` (the environment, pkg-config, directories and XML files), `DocSystem`
-- (directories and the modules that are imported) and `System` (descriptors that are made and
-- closed). The pointers that libwayland returns are arguments.
--
-- Bounds and fuel: numbers of the source that are not bounded stay so; the ranges of int32_t and
-- uint32_t are those of `Cffi`. The decimal text of a number recurs on fuel, one more than the
-- number, which is enough for all its digits. The loop of `Display.read` runs for a number of
-- rounds: where each round that is not the last leaves fewer events pending, one round more than
-- there are events is enough. The walk over a list runs for one round more than the list has links.
-- All else is structural recursion.
--
-- What is not modelled: what libwayland does by itself, such as freeing a client that hangs up;
-- callbacks that libwayland makes while it destroys a display; the weak dicts that keep cdata
-- alive, but for those of `_gen_c` and for the display of a global; log messages; the declarations
-- for cffi (pywayland/ffi_build.py); downloads, the readme that setup.py sends to PyPI, and the
-- rest of the documentation's scripts. The order in which a set of children is walked is that of
-- their making.
pub mod Base
pub mod Scanner
pub mod ProtocolCore
pub mod Client
pub mod Dispatcher
pub mod Server
pub mod Utils
pub mod Generated
pub mod Delivery
pub mod Packaging
pub mod Documentation
mod Tests
