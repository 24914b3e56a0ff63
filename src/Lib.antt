-- ===== src/Lib.antt =====
-- Verification library of the C programs of this repository.
--
-- The programs are separate: a reminders application with a display, its kernel driver, and smaller
-- drivers and tools. Each is modelled by the modules named below; paths are from the repository's root.
--
-- Reminders: final_task/userspace_app/lvgl_lib/application_view/reminders_model/reminders_model.c.
--   Reminders.antt has the state (the two global lists, the blocks of users and reminders by address,
--   the registered callbacks, what was printed and reported). Users, Notifications, Timer and Queries
--   have one function for each function of the file and for each of its loops. A read through a pointer
--   to a block that is not there is a fault, `none`. The loops run over the entries that the list holds
--   at their start: list_for_each_safe reads the next entry before the body, which unlinks only the
--   entry that it is at. Invariant, Order, Insert, Names, Due, Tick, Countdown, Remove and Removal have
--   proofs. Book is the abstract view of the users and their reminders, with the operations on it and
--   runs of calls beside the code's; Accounts and Cleanup are about the blocks that are held. Kernel is
--   the timer of task8/kernel_module/reminders_model.c, which differs from it, and Tests has the tests
--   of task8/kernel_module/tests.h with the start of task8/kernel_module/module_main.c, which runs them;
--   its Stages and Steps say which call is allowed when, Loaded has the proofs on sequences of calls.
-- Links: the intrusive lists. linked_list.h (exercise4/linked_list, task8/linked_list and
--   final_task/userspace_app/lvgl_lib/application_view/linked_list) is a copy of the list of the Linux
--   kernel, so it is the interface ListLib, with the documented effect of each operation on the entries
--   as laws; Links/Sequence is an instance.
-- Display: final_task/display_driver. Display.antt has the state and gpio_module.c and spi_module.c,
--   whose calls of the kernel are a list of events; Frame the writes into the frame buffer; Screen the
--   drawing functions; Text the fonts and strings; Commands the table of commands with init_display and
--   lcd_deinit; Device gc9a01_chardev.c and module_main.c, with what the panel receives in
--   Device/Panel. The frame buffer is a function from the index of a 16-bit word; a write out of its
--   240 * 240 words is a fault. Words are in memory with the low byte first.
-- Buttons: task4/buttons_module.c and the counter of task4/main.c, by samples of the three pins. Screen
--   is what task4/main.c draws, on the panel of SpidevPanel.
-- Messenger: task6/module_main.c, with Procfs for task6/procfs_handler.c; the clear request of
--   task6/sysfs_handler.c is in Messenger.antt, and the start and the end of the module in Life.
-- Currency: task5/part02; Life is the start and the end of the module.
-- StringProcessor: exercise10/part03, on the buffers of Bytes.antt: Convert has strings_processor.c,
--   Device rw.c and sysfs_handler.c, Life the start and the end of the module.
-- ProcBuffer: exercise10/part01/rw.c.
-- Workers: task9/module_main.c, the loop of a thread and the steps of the module and its threads.
-- TimeTracker: task7, the entries in /proc with the handlers behind them, the mode and the timers; Life is
--   the start and the end of the module, with the random timer, step by step, and Removed what the end
--   leaves.
-- Thermometer: exercise12/ds3231_driver.c; Session is about its files while a device comes and goes.
-- WorkQueue: exercise15/mod_workqueue.c, the steps of the module and its works.
-- SharedIrq: exercise15/mod_ser.c.
-- CharDevices: exercise11: Fixed is part01/fixdev.c with the read of part01/dev.h, Dynamic
--   part01/dyndev.c and Ranged part02/dyndev.c. Their start and exit differ in their numbers, and share
--   the steps; Words has the loops of Ranged over ints as loops over words. Devices, Undo and Life are
--   about what they hold, Files about the processes that use a device.
-- SpidevPanel: task4/gpio_module.c and task4/spi_module.c, with Screen for task4/gc9a01.c. The loops that
--   write into the frame buffer are the same text in both drivers, and are shared with Display. Received
--   is what a panel receives from either driver, Twin and Same set the two beside each other.
-- RunLength: task3/src/encoder.c and task3/src/decoder.c.
-- Game: exercise4/game/game_core.c, on the list interface.
--
-- What the kernel or the C library does is an argument: the blocks that malloc and kmalloc return, the
-- bytes that copy_to_user and copy_from_user leave uncopied, the texts of snprintf, the numbers of
-- kstrtos32 and rand. Where a theorem needs more of them, it is a hypothesis. Every loop is a structural
-- recursion, over the entries or over the number of rounds that are left, but for two: the loop of a
-- thread in Workers and the loop over the pieces of the data in SpidevPanel run on fuel. For the first
-- it is enough to give the initial rest, for the second the number of bytes.
--
-- Integers: an int is an integer whose overflow is a fault where the code can reach it; an unsigned
-- number is a natural number with its wrap-around written out.
--
-- Not modelled: linked_list.h itself, the tables of fonts.c, the C++ code and the scripts, the messages
-- of printk, the start of task4's panel (it uses a value that gpio_module.c does not return),
-- task8/main.c and the user-space copy of task8, task5/part01, the versions of exercise10/part02, the
-- demonstrations in exercise10/demo_sysfs, exercise13 and exercise14, lab1_interrupt.c and
-- mod_tasklet.c of exercise15, and the LVGL application.
pub mod Buttons
pub mod Bytes
pub mod CharDevices
pub mod Currency
pub mod Display
pub mod Game
pub mod Links
pub mod Messenger
pub mod Prelude
pub mod ProcBuffer
pub mod Reminders
pub mod RunLength
pub mod SharedIrq
pub mod SpidevPanel
pub mod StringProcessor
pub mod Thermometer
pub mod TimeTracker
pub mod WorkQueue
pub mod Workers
