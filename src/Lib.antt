-- ===== src/Lib.antt =====
-- The servers of the MMT adaptive optics system: the top box server, which drives the motors and
-- the power relays in the top box of the instrument (topbox_server/), and the data server, which
-- keeps the parameters of the system and reads the data streams of the reconstructor
-- (data_server/).
--
-- In the top box server every device has one connection, guarded by a mutex. A polling thread
-- (MVP_Looper, Stage_Looper, Power_Looper, Fwheel_Looper,
-- Smart_Looper) connects and, except for the filter wheel,
-- asks for the state, and the command thread (MVP_Process, Stage_Process, Power_Process,
-- Fwheel_Process) carries out request lines, for the homing by a third
-- thread (MVP_Home, Stage_Home, Fwheel_Home); all use the routines of the device, which lock the mutex, send a
-- request, read a reply, and close the connection when a write fails; those of the filter wheel do
-- not lock it. In the data server, clients set and read parameters by name (Info_Process); two of the parameters,
-- the seeing and the Strehl value, are kept with their history in circular arrays. A thread
-- (PCR_GetDM) stores the frames of the reconstructor in a ring, and another (PCR_GetWFSC) those of
-- the wavefront camera without the edges of their images, from which clients ask for data
-- sets by name (DServ_GetSingle, DServ_Stream), or for the newest image (WFSC_Process). Another thread (PCR_Process) serves a client that
-- commands the reconstructor: it passes commands on, one by one under the mutex PCR_CMD_Lock, and
-- sets the parameters that follow from those that the reconstructor acknowledged. The user's
-- program (wish/) sends it its requests (PCR_Cmd).
--
-- An MVP_, Stage_, Power_, Fwheel_, Smart_, Socket_ or Status_ routine stands in the file of its name in
-- topbox_server/MVP, Stage, Power, Fwheel, Smart, Socket or Status, an Info_, PCR_ or
-- DServ_ routine in data_server/Info, data_server/PCR or data_server/DServ; Power_IO.c, Fwheel_IO.c,
-- Fwheel_Move.c, Smart_IO.c and Smart_Move.c hold several.
--
-- Files, and the code that each is about:
--   Base, Base/*            numbers, lists, text, and what is used of <stdio.h> and <string.h>
--   Topbox/Link             include/Device.h, include/Socket.h, Socket_Close, Status_ZeroFlags: the
--                           state of a connection, and the state-passing monad of the routines
--   Topbox/Socket           Socket_Flush, Socket_StringWrite; Socket/Connect is Socket_OpenClient
--   Topbox/Mvp/Wire         MVP_Read and MVP_Write
--   Topbox/Mvp/Commands     MVP_Abort, MVP_HardStop, MVP_SetHomeTrigger, MVP_SetZero, MVP_ResetNode,
--                           MVP_SetSpeed, MVP_SetAccel, MVP_SetHomeFlag
--   Topbox/Mvp/Moves        MVP_MoveAbsolute and MVP_MoveRelative
--   Topbox/Mvp/Queries      MVP_Status, MVP_Position, MVP_HomeFlag, MVP_Enable, MVP_Disable
--   Topbox/Mvp/Process      MVP_Process
--   Topbox/Mvp/Looper       MVP_Looper
--   Topbox/Mvp/Home         MVP_Home
--   Topbox/Homing           what the homing threads are built of: a state-passing monad of their own,
--                           in which the polling thread has a turn before every step
--   Topbox/Stage            the routines of the stages; Stage/Looper is Stage_Looper, Stage/Process is
--                           Stage_Process and Stage/Home is Stage_Home
--   Topbox/Power            Power_IO and Power_Status; Power/Process is Power_Process and Power/Looper
--                           is Power_Looper
--   Topbox/Fwheel           Fwheel_IO, Fwheel_Home and Fwheel_Move; Fwheel/Turns is about the two
--                           loops over the position, Fwheel/Process is Fwheel_Process and
--                           Fwheel/Looper is Fwheel_Looper
--   Topbox/Smart            Smart_IO and Smart_Status; Smart/Setup is Smart_Init and Smart_Reconnect,
--                           Smart/Looper is Smart_Looper and Smart/Moves is about Smart_Move
--   DataServer/Info/Ring    Info_Array, Info_SeeingArray and the code of Info_SetParameter that adds
--                           a value
--   DataServer/Info/Parameters   Info_FindParameter, Info_SetParameter, Socket_StringTrim
--   DataServer/Info/Table   include/InfoList.h
--   DataServer/Info/Reports Info_SendAll, Info_SendSeeing, Info_SeeingPositions, Info_SendHelp, and the
--                           lines of Info_SeeingArray
--   DataServer/Info/Service Info_Process
--   DataServer/Pcr/FindSof  PCR_FindSOF
--   DataServer/Pcr/Session  PCR_SendCmd, PCR_SendCmd_NoReply, PCR_SendCmd_DM, Socket_StringRead
--   DataServer/Pcr/Vectors  PCR_SendFloatVector, PCR_SendShortVector and PCR_SendSlopeOffsets from
--                           PCR_CMD_Lock on, Socket_Read, Socket_Write
--   DataServer/Pcr/Server   PCR_Thread_Info and the state-passing monad of PCR_Process
--   DataServer/Pcr/Positions    the start of PCR_Process
--   DataServer/Pcr/Requests the words of PCR_Process
--   DataServer/Pcr/Commands, DataServer/Pcr/Forward   its branches, and the rest of the routines that
--                           send vectors
--   DataServer/Pcr/Help     PCR_SendHelp
--   DataServer/Pcr/Process  PCR_Process
--   DataServer/Frames       include/DServ.h, DServ_InitDM, DServ_InitWFSC, DServ_InitSlopes
--   DataServer/Frames/Receive   PCR_GetDM
--   DataServer/Frames/Wfsc  PCR_GetWFSC; Wfsc/Rows is about the rows of an image
--   DataServer/Frames/Images    WFSC_GetSingle and WFSC_Process
--   DataServer/Frames/Sets  the data sets of DServ_GetSingle and DServ_Stream
--   DataServer/Frames/Single    DServ_GetSingle
--   DataServer/Frames/Stream    DServ_Stream
--   Wish/PcrCmd             wish/PCR/PCR_Cmd.c
-- The other files hold laws about these (Laws, Reads, Settles, Ready, Frees, Ends, Linked,
-- Stored, Ring, Sizes, Truncated, Kept, Delivered, Judged, Agree, Steps, Sound, Serves, Passes, Printed, Transcript, Whole, Mutex, Echo,
-- Confirmed, Decode, Reply, History, Homing, Rotations), and a sample device with tests
-- (Sample, Tests).
--
-- A routine is a function from a connection to its status and the connection afterwards, or to
-- none, where the thread would wait for ever on a mutex that is held, unlock a free one, read
-- outside a table, or write behind a buffer of the stack in
-- Smart_Read, Fwheel_CheckHome, Fwheel_SeekHome, Info_SetParameter, Info_SendAll and the like. The kernel, the device at the other end, the floating-point arithmetic and the
-- contents of uninitialised storage are the parameter `Env`; of the kernel it is only asked that
-- `write` takes no more bytes than it is given. What a device answers depends on the bytes sent
-- and on the number of calls made before; a routine sees input exactly when some waits.
--
-- The positions of the filter wheel are unbounded integers: the loops over them stay between the
-- current and the requested position, but for one turn.
--
-- Fuel: the loop of Socket_Flush gets one round more than there are bytes waiting, and each round
-- but the last takes one byte at least; the loop of Socket_StringWrite gets as many rounds as
-- there are bytes; the loops over the position get one round more than it is away, and each round
-- but the last brings it eight nearer. An `int` read from a reply is taken modulo 2 ^ 32, the
-- counter of an array wraps there too. The loops of a homing that wait run on the tries that the
-- source gives them, 1000 or 3000, and those that leave a limit on its ten steps; the loop of
-- DServ_Stream that awaits a frame runs on number_tries. What comes from outside, the rounds of a
-- polling thread or of a stream, is given as a list or as a function from the turn.
--
-- A homing thread is interleaved with the polling thread: before each of its steps the polling
-- thread makes a number of whole rounds, any number, which a schedule gives. `float` and `double`
-- constants are written as their bit patterns.
--
-- In PCR_Process, `none` is also a write behind the end of a string, an access outside the list of
-- parameters, or to the storage of a vector that malloc did not give. A read of a line waits for
-- ever where the bytes that are to come do not end it; the other end is then to close the
-- connection. Socket_OpenClient and Socket_StringWrite have a copy in each server that differs in
-- debug output and in the error flag, which the data server's Socket_OpenClient sets where that of
-- the top box clears it; both are the definitions of Topbox/Socket, which follow the top box, and
-- nothing that is stated here is about that flag in the data server.
--
-- In the rings of frames an address is the distance from the beginning of the buffer, and the
-- memory a function from addresses to bytes. What the reconstructor sends over one connection is a
-- list of bytes, at whose end the connection breaks. A client is sent data over a connection of
-- Topbox/Link.
--
-- Not modelled: debug output, the sleeps between requests, the start of the threads, the
-- interleaving of two threads inside a round or a routine, and the parts of the repository that
-- are not named above.
pub mod Base
pub mod Topbox
pub mod DataServer
pub mod Wish
