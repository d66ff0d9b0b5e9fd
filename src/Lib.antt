-- ===== src/Lib.antt =====
-- A verification library for lib-stm32: the DfuSe converter, and drivers and the USB
-- device of the minuteos support for STM32.
--
-- The program's parts. elf2dfuse is a tool for the host: it reads the ELF file that the linker made
-- and writes the DfuSe file that the boot loader takes over USB. The targets are the run-time
-- support: drivers that run partly in interrupts and partly in tasks. Of these, the USART object
-- moves bytes between two user buffers in each direction and the peripheral, the circular receiver
-- reads from a ring that a DMA channel fills, buffers are linked to the running transfer of a DMA
-- channel, the disk driver moves sectors between memory and an SD card, flash memory is written and
-- erased, a device on an I2C bus is read and written, pins are set, the time is taken from the real
-- time clock, and the USB device answers the requests of the host on endpoint 0 and moves packets on
-- its data endpoints. The disk driver uses the SD card interface; the other parts share no state with
-- each other.
--
-- Files and code:
--   Base                     tests and lists over the native numbers, machine words, exclusive or
--   Elf2dfuse/Stdio          fgetc, fseek, read_uint8 to read_uint32    elf2dfuse/elf2dfuse.c
--   Elf2dfuse/Header         readEh, checkEh, readSh, readPh            elf2dfuse/elf2dfuse.c
--   Elf2dfuse/CrcTable, Crc  crc32_table, crc32_calc                    elf2dfuse/elf2dfuse.c
--   Elf2dfuse/Sections       find_blob, and the section loop of main    elf2dfuse/elf2dfuse.c
--   Elf2dfuse/Image          the two passes of main over the blob list  elf2dfuse/elf2dfuse.c
--   Elf2dfuse/Convert        main as a whole                            elf2dfuse/elf2dfuse.c
--   Baud                     USART::BaudRate                              targets/stm32l/hw/USART.cpp
--   Circular                 DMAReceiverCircular           targets/stm32l/io/DMAReceiverCircular.cpp
--   Dma                      DMAChannel, ClaimChannel                     targets/stm32/hw/DMA.cpp
--   Flash, Flash/Erase       _FLASH                                       targets/stm32l/hw/FLASH.cpp
--   Gpio, Gpio/Pins          GPIOPin, GPIOPinID, GPIOPort                   targets/stm32l/hw/GPIO.h
--   Gpio/Configure, Name     GPIOPort::Configure, ConfigureAlternate, Name  targets/stm32l/hw/GPIO.cpp
--   I2c, I2c/Frequency       I2C::Device, OutputFrequency                 targets/stm32l/hw/I2C.cpp
--   Rtc                      the time base            targets/stm32-rtc-timing/base/stm32_rtc.cpp
--   Sdmmc, Sdmmc/Identify    SDMMC                                        targets/stm32l/hw/SDMMC.cpp
--   Sdmmc/Csd                the register CSD                               targets/stm32l/hw/SDMMC.h
--   Sdmmc/Driver             SDMMCDriver                     targets/stm32l/fatfs/SDMMCDriver.cpp
--   Usart                    Handler, Buf, AddBuffer, Reset    targets/stm32l/io/USARTInterrupt.cpp
--   Usb/Types                the state                         targets/stm32-otgfs/usb/Device.h
--   Usb/Control              ControlSuccess, HandleInControl, HandleOutControl    .../usb/Device.cpp
--   Usb/Requests             HandleControl and the standard requests              .../usb/Device.cpp
--   Usb/Fifo                 AllocateFifo                                         .../usb/Device.cpp
--   Usb/Endpoints            the data endpoints    targets/stm32-otgfs/usb/DeviceEndpoints.cpp
--   Usb/Registers            USBInEndpoint, USBOutEndpoint             .../hw/USB.h, .../hw/USB.cpp
--   Usb/Configuring          ConfigureEndpoints, Configure   .../usb/Device.cpp, .../DeviceEndpoints.cpp
--   Usb/Dispatch             HandleIn, HandleOut                                 .../usb/Device.cpp
--   Usb/Interrupts           IRQHandler, HandleRx, one round of Task              .../usb/Device.cpp
-- The modules below these hold the proofs and the tests.
--
-- State and operations. A C function on the input stream is a function from a `File` to a result and
-- a `File`; the output of the tool is the list of bytes written with the running checksum. The blob
-- list is a list, and its next-pointers are the order of that list. `Usart` and `Device` are records
-- of the members that the code reads or writes; an operation is a function on the record. Memory is a
-- function from addresses to bytes, and a null pointer is address 0. What the USB device does to its
-- peripheral is recorded as a list of actions, in order. The SD card interface and the I2C bus are
-- functions from the operations so far to what the program reads next, so that every behaviour of a
-- card or a device is one of them. A handler of an interrupt gets the flags that
-- it reads as arguments. The setup packet that HandleOutControl takes from its buffer is an argument
-- too: its type is declared by a library outside this repository.
--
-- Bounds and fuel. Words of 8, 16 and 32 bits wrap around as written in Base/Bits. The outer loops of
-- the tool take fuel: one round for each blob, since every round of a loop that ends uses up a blob,
-- and eight rounds of padding, since a padding is below 2048 bytes and a block has 274. When fuel
-- runs out the outcome is `spin`; a null pointer that is read through is `null_pointer`. The loop that
-- waits for the start of an SD card takes a round for each round of its timer, and an I2C transfer one
-- for each byte and one more, or for each command and one more on a bus without faults.
--
-- Parameters. The values of strtoul, the files as they are opened, the bytes that malloc leaves in a
-- buffer, the application's descriptors and callbacks, the words that reads of a FIFO give, and the
-- numbers of endpoints of the chip are arguments. So are the values of the RTC counter, the largest DMA
-- transfer, Span.Left, FROM_BE32 and FROM_BE16, the sector size of the file system, the timer of the
-- card's start, and what a flash cell, a page and an output register hold after an operation.
--
-- Assertions. Where an assertion is modelled, its failure is a result of its own: none, or res_assert for
-- the SD card. Those of SDMMC::Command are modelled in reads and writes of sectors, not in the
-- identification of a card; those at the starts of transfers of the USB endpoints are left out.
--
-- Not modelled: the messages of elf2dfuse and errors of its output stream; the registers themselves,
-- where an operation only sets them (the
-- timers, clocks, watchdog, USART and SPI registers, the set-up of the RTC, of the SD card interface
-- and of DMA descriptors); the waits for a pin; and the pipes on the USARTs, which pass calls on.
pub mod Base
pub mod Baud
pub mod Elf2dfuse
pub mod Flash
pub mod Gpio
pub mod I2c
pub mod Usart
pub mod Usb
pub mod Circular
pub mod Dma
pub mod Rtc
pub mod Sdmmc
