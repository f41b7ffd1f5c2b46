-- ===== src/Lib.antt =====
-- The AIC8800 driver, drivers/aic8800/aic8800_fdrv: its parts that keep state of their own.
--
-- TcpAck (aicwf_tcp_ack.c) thins out the TCP acknowledgements that are sent: tcp_ack_handle_new holds
-- back the newest of a flow in a slot of a table, and a counter or a timer releases it. TcpAck/Packet
-- reads the headers and the TCP options, TcpAck/Table matches, expires and hands out slots,
-- TcpAck/Filter has the calls from the transmit and the receive path. A packet is a function from
-- offsets to bytes, a buffer is its address, and the clock and its comparison are a parameter.
--
-- Reord (rwnx_rx.c, aicwf_txrxif.h) puts received frames back into the order of their numbers. Reord
-- is the window of one traffic class, Reord/Station the operations on all stations (reord_process_unit,
-- reord_flush_tid, reord_deinit_sta). A frame that goes up meets filter_rx_tcp_ack of TcpAck.
--
-- FrameQueue (aicwf_txrxif.c) has the queues of frames with priorities between the bus and the driver.
--
-- Cmd (rwnx_cmds.c, and the command array and rwnx_send_msg of rwnx_msg_tx.c) sends requests to the
-- firmware one at a time and matches its confirmations. A call that waits is in two parts, before and
-- after its wait, and Cmd/Ops/Run interleaves the parts. Cmd/Codec reads the frame of a request back.
--
-- Txq (rwnx_txq.c, rwnx_txq.h, and the calls of rwnx_tx.c that work on the queues) has the transmit
-- queue of each traffic class of a station and the hardware queues that list them: Txq/Init sets them up,
-- Txq/Sched starts, stops and lists them, Txq/Push queues frames and takes them out, Txq/Process is
-- rwnx_hwq_process, Txq/PowerSave the power-save delivery, Txq/Classify the class of a frame and its
-- network queue. Txq/Run has the steps that the driver takes.
--
-- UsbHost (usb_host.c) is the ring in which a frame to be confirmed waits; rwnx_tx_push and
-- rwnx_hwq_process of Txq push to it.
--
-- Radar (rwnx_radar.c, and rwnx_radar_detect_ind of rwnx_msg_rx.c) looks for radar patterns. Radar has
-- the patterns, Radar/Pulses the queue of a detector, Radar/Short and Radar/Long the two kinds of
-- detectors, Radar/Detector the detectors of a chain, Radar/Detector/Domain their regulatory domain, and
-- Radar/Process the ring of pulses from the firmware and the loop that hands them to the detectors;
-- Radar/Cac is the channel availability check, with the kernel taking its delayed work up as a step of
-- its own. The pools of the memory are counters, and the outcomes of
-- kmalloc a list that is an argument.
--
-- Machine words are natural numbers with their wrap-around written out. Two loops run on fuel. That over
-- the TCP options (TcpAck/Packet): a run that exhausts it is `none`, more rounds than bytes of options are
-- enough for well-formed options with no end-of-list, and the source has no bound of its own. And that of
-- rwnx_hwq_process over a list (Txq/Process), for which more fuel than there is backlog is enough.
--
-- Not modelled: cfg80211, the bus drivers, the firmware loader, debugging and vendor interfaces, which
-- are calls of the kernel or of the device, and the IPC rings and the multi-user groups. Of radar
-- detection, the detection work and the dumps for debugging are left out. Locks are not modelled: an
-- operation under a lock is one step.
pub mod Common
pub mod TcpAck
pub mod Reord
pub mod FrameQueue
pub mod Cmd
pub mod UsbHost
pub mod Txq
pub mod Radar
