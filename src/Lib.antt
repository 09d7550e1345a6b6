-- ===== src/Lib.antt =====
-- Ethersex (IR77): firmware for AVR microcontrollers with network, bus and timing services.
--
-- The firmware is a main loop that calls the parts in turn, beside interrupts that change their
-- state. The parts modelled: ZBus takes packets from the network stack's buffer, which both share
-- under a lock, and puts them on an RS485 bus. The clock counts seconds and converts them to
-- dates, and a radio receiver sets it; cron keeps the list of jobs that are to run at given times,
-- and reads the clock for it. The Modbus client answers requests for its registers, which a serial
-- line brings, and the node sends its own requests to others there. The file layer hands calls to
-- the module of a file, one of which reads files from the flash. The command interface finds the
-- command for a line that comes over TCP or a serial line, and sends its text back. The TFTP
-- server sends and stores files through the file layer. Windows print text on a terminal.
--
-- Prelude: numbers, Booleans, lists and options, and the wrap-around of 8, 16 and 32 bits (Words),
--   signed numbers (Int), and a loop over a table by an index (Tables).
-- Zbus: protocols/zbus/zbus.c and zbus.h, with the buffer lock of protocols/uip/uip.h.
--   The record Zbus holds the static variables; Mode says which of transmitter and receiver the
--   UART's registers have switched on. zbus_txstart, zbus_rxstart, zbus_rxstop, zbus_rxfinish,
--   zbus_core_init and zbus_core_periodic are functions of those names; the interrupts
--   SIGNAL(usart(USART,_TX_vect)) and SIGNAL(usart(USART,_RX_vect)) are tx_vect, which may yield a
--   byte for the bus, and rx_vect, which takes one. Zbus/Inv has every sequence of calls and
--   interrupts as steps, Zbus/Framing the frame of a payload, Zbus/Transmit and Zbus/Receive the
--   two ends of the line, and Zbus/RoundTrip both together.
-- Clock: services/clock/clock.c and clock.h.
--   Clock/State has the counters and their functions, Clock/Seconds their run over many seconds;
--   Clock/Date is clock_datetime, Clock/Timestamp clock_utc2timestamp, Clock/Local
--   clock_localtime with its time zone of Central Europe. Clock/Gregorian is an independent
--   calendar, to which Clock/Years, Clock/Months and Clock/Correct relate clock_datetime.
-- Dcf77: hardware/clock/dcf77/dcf77.c and dcf77.h, the interrupt SIGNAL(DCF77_vect) at an edge
--   of the radio signal, built with HAVE_DCF1, which sets the clock by the functions of Clock. Its
--   variables are a record, those of the telegram a record in it. Dcf77/Seconds is a telegram as
--   bits, apart from the code; Dcf77/Bits, Dcf77/Fields, Dcf77/Stages and Dcf77/Decode go from
--   bits to the bytes of the time, Dcf77/Edges, Dcf77/Reception and Dcf77/Minute from edges to the
--   clock, and Dcf77/Valid and Dcf77/Reach follow any edges.
-- Cron: services/cron/cron.c and cron.h.
--   Cron/Heap has jobs on a heap of pointers, Cron/Jobs the operations under their names, each
--   write through a pointer in the order of the source. Cron/Chain says which lists of pointers a
--   heap holds; Cron/Walk, Cron/Link, Cron/Insert and Cron/Position, and Cron/Remove, Cron/Jobrm
--   and Cron/Removed follow the operations. Cron/Periodic is cron_periodic, which reads the clock
--   by clock_datetime or clock_localtime; what a job calls is a parameter of it. Cron/Match says,
--   independently of the code, which times an event stands for, Cron/Due which jobs are due and
--   what is left of them, and Cron/Sweep, Cron/Minute and Cron/Once lead from one job to the walk
--   and to the call. Cron/Ecmd and Cron/Add are the commands of services/cron/cron_ecmd.c.
-- Modbus: protocols/modbus/modbus_client.c and modbus_client_cb.c, with modbus_crc_calc
--   of modbus.c.
--   Modbus/Client is modbus_client_process, one function for each kind of request and one for each
--   of its labels; the step of the check sum, from the C library for AVR, is a parameter.
--   Modbus/Transport is the line of modbus.c, one record of its variables and buffers, with
--   modbus_rxstart, modbus_periodic and the two interrupts; Request and Answer are what is sent.
--   Modbus/Access has the registers that the requests touch, and Modbus/Bounds, Modbus/Broadcast
--   and Modbus/Read follow the requests.
-- Vfs: core/vfs.
--   Vfs/Inline is the handle of an inlined file, with vfs_inline_read, vfs_inline_fseek and
--   vfs_inline_size; the flash is a function from addresses to bytes. Vfs/File is a file as its
--   content and a position; Vfs/Seek and Vfs/Calls relate the two. Vfs/Dispatch is core/vfs/vfs.c,
--   whose table of modules is a parameter, and Vfs/Copy is vfs_copy_file of core/vfs/vfs-util.c.
--   Vfs/Crc has the check sum of an inlined file as core/vfs/vfs-concat.c and core/eeprom.c
--   compute it.
-- Tftp: services/tftp/tftp-vfs.c, whose handler of a packet calls the functions of Vfs/Dispatch.
--   The code between its labels is a function for each; a packet is the memory from its start to
--   the end of the buffer. Tftp/Files has the packets of RFC 1350 and the interfaces of the file
--   modules, IsReader and IsWriter; Tftp/Download, Tftp/Upload and Tftp/RoundTrip follow whole
--   transfers, and Tftp/Returns and Tftp/Faults any packet.
-- Tty: core/tty/tty.c and tty.h.
--   Tty/Window has windows and their functions under the source's names; the calls of the
--   low-level driver are kept as a list, and the functions that waddch calls and that call it
--   again take it as an argument. Tty/Cell, Tty/Row, Tty/Block and Tty/Scroll go from one
--   character to the scrolling of a window, Tty/Print and Tty/Text are any text. Tty/Queue is the
--   queue of input characters.
-- Ecmd: protocols/ecmd. Ecmd/Result is ecmd-base.h, Ecmd/Alias the function aliascmd_decode of
--   aliascmd.c, Ecmd/Parser ecmd_parse_command and parse_cmd_help of parser.c. The generated
--   tables of commands and aliases are parameters, and a command is a function of the rest of the
--   line, the output buffer and the state of the rest of the program. Ecmd/Net is
--   via_tcp/ecmd_net.c, whose parser is a parameter with the interface IsParser; Ecmd/Net/Shell
--   shows which tables of commands fill it, Ecmd/Net/Bounds and Ecmd/Net/Valid follow its steps.
--   Ecmd/Usart is via_usart/ecmd_usart.c, a state of the variables and the bytes sent, with the
--   timer's function and the two interrupts; Ecmd/Usart/Stuck has their sequences as steps.
--
-- Numbers are natural numbers, with the wrap-around of the C types written out. What the source
-- does out of bounds is a result of its own where the functions yield an Option or a Run: reads of
-- the table of months, accesses through pointers to jobs and the text of cron_add, the registers
-- of the Modbus client and the receive buffer of its line, the modules of Vfs, the packets of
-- Tftp, and the tables and the stores of texts of Ecmd. Elsewhere an array is a list in which a
-- read beyond the end gives 0 and a write there is dropped: the buffers of Zbus and Dcf77, whose
-- invariants bound the indices, the queue of Tty, the message that the Modbus client works on, and
-- single bytes of a line of Ecmd. The memory that Tty writes to is a function of the index, also
-- behind its image. Loops that count up to a bound recurse on fuel. The loop over the years of
-- clock_datetime has enough for all 32-bit times, and that it ends is proved; the loops over the
-- list of jobs take their fuel as an argument, and more fuel than jobs is enough. A transmission
-- takes its number of interrupts as an argument, and twice the size and four is enough. The copy
-- of a file takes its fuel as an argument, and more than the bytes to copy is enough; the loops
-- over the tables of commands and aliases, whose index has eight bits, have 257, and that they end
-- is proved for tables of fewer than 256 and 128 entries.
--
-- The build modelled has NTP_SUPPORT, WHM_SUPPORT, CLOCK_DATETIME_SUPPORT, TIMEZONE_CEST,
-- ALIASCMD_SUPPORT, and MODBUS_CLIENT_SUPPORT with the default addresses. It has none of
-- TEENSY_SUPPORT, VFS_TEENSY, ECMD_SERIAL_USART_RS485_SUPPORT, CLOCK_CRYSTAL_SUPPORT,
-- CRON_SUPPORT_TEST and the debug options.
--
-- Not modelled: the third-party code in the tree (uIP, the USB and SD card drivers, the
-- cryptography), since the parts only call it; device drivers, which set registers; the
-- configuration and the tools for a PC. Of the modelled parts, the adjustment of the timer to the
-- NTP time is left out, and reading and printing by the C library's sscanf and snprintf; of
-- Modbus, the transport over TCP; of the commands, those that print by snprintf and those that set
-- a flag; of the inlined files, the search of the flash for a name, and the tool for a PC that
-- puts them there, but for its check sum; of TFTP, the set-up of the connection and the boot
-- loader's requests.
pub mod Prelude
pub mod Zbus
pub mod Clock
pub mod Cron
pub mod Modbus
pub mod Vfs
pub mod Tty
pub mod Ecmd
pub mod Tftp
pub mod Dcf77
